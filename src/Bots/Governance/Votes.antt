-- ===== src/Bots/Governance/Votes.antt =====
-- Votes in the governance loop of packages/nouns-bots/src/index.ts.
use sznouns.Prelude.{
  ℕ, ◌+◌, ◌≡◌, refl, sym, ap, ◌∙◌, Bool, true, false, not, ◌&&◌, some, List, [], ◌∷◌, ◌++◌, All,
  arith, ltb, if◌then◌else◌, ◌==◌, ==_iff, Text, text_eq, text_eq_iff, Bool-cases, Option-cases,
  inl, inr,
}
use sznouns.Bots.{Redis, Proposal, Vote, Notice, governance_vote}
use sznouns.Bots.Cache.{get_proposal_cache}
use sznouns.Bots.Proposals.{ids_of, includes, filter_new, extract_new_votes}
use sznouns.Bots.Ticks.{World, Env, notify}
use sznouns.Bots.Governance.{same_status, tell_votes, tell_status, process_proposal}
use sznouns.Bots.Governance.Steps.{
  count, Accepts, changed, is_due, process_proposal_new, process_proposal_seen,
}

abbrev pub is_vote_of : ℕ → Text → Notice → Bool
is_vote_of id vote_id (governance_vote p v) = (p.id == id) && text_eq v.id vote_id
is_vote_of id vote_id _ = false

abbrev pub IsDistinct : List Text → Type 0
IsDistinct [] = Unit {0}
IsDistinct (id ∷ ids) = (includes ids id ≡ false) × IsDistinct ids

-- Votes that have each the weight that goes with its id.
abbrev pub HasWeights : (Text → ℕ) → List Vote → Type 0
HasWeights weight votes = All (λ (v : Vote). v.votes ≡ weight v.id) votes

-- A later record of a proposal: no vote is lost, none is listed twice.
pub record IsLater (weight : Text → ℕ) (c p : Proposal) : Type 0 where
  pub grown :
      (id : Text) → includes (ids_of c.votes) id ≡ true → includes (ids_of p.votes) id ≡ true
  pub distinct : IsDistinct (ids_of p.votes)
  pub weights : HasWeights weight p.votes

-- 1 for a vote with weight that is in the second list and not in the first.
abbrev pub news : (Text → ℕ) → List Text → List Text → Text → ℕ
news weight before after id =
    if includes after id && (not (includes before id) && ltb 0 (weight id)) then 1 else 0

module _ (r : Redis) (id : ℕ) (weight : Text → ℕ) (vote_id : Text) where
  open r use {Store}

  abbrev pub votes_told : World r → ℕ
  votes_told w = count (is_vote_of id vote_id) w.told

  votes_told-tell_votes :
      (env : Env r) (p : Proposal) (before : List Text) (votes : List Vote) (w : World r)
      → p.id == id ≡ true
      → IsDistinct (ids_of votes)
      → HasWeights weight votes
      → votes_told (tell_votes r env p (filter_new before votes) w)
        ≡ news weight before (ids_of votes) vote_id + votes_told w
  unfolding tell_votes includes
  votes_told-tell_votes env p before [] w own d h = omega arith
  votes_told-tell_votes env p before (v ∷ votes) w own (fresh, d) (e, h) =
      let w' = (notify r env (governance_vote p v) w).0 in
      let rest = votes_told-tell_votes env p before votes w own d h in
      let rest' = votes_told-tell_votes env p before votes w' own d h in
      let kept : Bool = not (includes before v.id) && ltb 0 v.votes in
      let with_weight : kept ≡ (not (includes before v.id) && ltb 0 (weight v.id)) =
        ap (λ n. not (includes before v.id) && ltb 0 n) e in
      elim (Bool-cases (text_eq v.id vote_id)) [
        | inl this ↦
            let same : v.id ≡ vote_id = (text_eq_iff v.id vote_id).0 this in
            let gone : includes (ids_of votes) vote_id ≡ false =
              ap (includes (ids_of votes)) (sym same) ∙ fresh in
            let test : kept ≡ (not (includes before vote_id) && ltb 0 (weight vote_id)) =
              with_weight ∙ ap (λ i. not (includes before i) && ltb 0 (weight i)) same in
            elim (Bool-cases kept) [
              | inl k ↦ rw (k, this, sym test ∙ k) (rest' ∙ rw (gone, own, this) (omega arith))
              | inr k ↦ rw (k, this, sym test ∙ k) (rest ∙ rw gone refl)
            ]
        | inr other ↦ elim (Bool-cases kept) [
          | inl k ↦ rw (k, other) (rest' ∙ rw (own, other) refl)
          | inr k ↦ rw (k, other) rest
        ]
      ]

  votes_told-tell_votes_other :
      (env : Env r) (p : Proposal) (votes : List Vote) (w : World r)
      → p.id == id ≡ false
      → votes_told (tell_votes r env p votes w) ≡ votes_told w
  unfolding tell_votes
  votes_told-tell_votes_other env p [] w other = refl
  votes_told-tell_votes_other env p (v ∷ votes) w other =
      votes_told-tell_votes_other env p votes (notify r env (governance_vote p v) w).0 other
      ∙ rw other refl

  votes_told-tell_status :
      (env : Env r) (c p : Proposal) (w : World r)
      → votes_told (tell_status r env c p w).0 ≡ votes_told w
  unfolding tell_status
  votes_told-tell_status env c p w = elim (Bool-cases (same_status c.status p.status)) [
    | inl t ↦ rw t refl
    | inr f ↦ rw f refl
  ]

  module _ (env : Env r) (accepts : Accepts r env) where
    -- The other steps for a proposal tell no vote.
    votes_told-seen :
        (c p : Proposal) (w : World r)
        → get_proposal_cache r p.id w.store ≡ some c
        → votes_told (process_proposal r env p w) ≡ votes_told (changed r env accepts c p w)
    votes_told-seen c p w seen =
        ap (λ (v : World r). votes_told v) (process_proposal_seen r env accepts c p w seen)
        ∙ (let w2 = changed r env accepts c p w in
            elim (Bool-cases (is_due r env accepts p w2)) [ inl t ↦ rw t refl | inr f ↦ rw f refl ])

    pub votes_told-other :
        (p : Proposal) (w : World r)
        → p.id == id ≡ false
        → votes_told (process_proposal r env p w) ≡ votes_told w
    votes_told-other p w other = elim (Option-cases (get_proposal_cache r p.id w.store)) [
      | inl new ↦ ap (λ (v : World r). votes_told v) (process_proposal_new r env accepts p w new)
      | inr (c, seen) ↦
          votes_told-seen c p w seen
          ∙ (votes_told-tell_votes_other env p (extract_new_votes c p) (tell_status r env c p w).0
                other
              ∙ votes_told-tell_status env c p w)
    ]

    pub votes_told-own :
        (c p : Proposal) (w : World r)
        → p.id == id ≡ true
        → get_proposal_cache r id w.store ≡ some c
        → IsLater weight c p
        → votes_told (process_proposal r env p w)
          ≡ news weight (ids_of c.votes) (ids_of p.votes) vote_id + votes_told w
    unfolding extract_new_votes
    votes_told-own c p w own cached later =
        let same : p.id ≡ id = (==_iff p.id id).0 own in
        let seen = ap (λ i. get_proposal_cache r i w.store) same ∙ cached in
        let w1 = (tell_status r env c p w).0 in
        votes_told-seen c p w seen
        ∙ (votes_told-tell_votes env p (ids_of c.votes) p.votes w1 own later.distinct later.weights
            ∙ ap (λ n. news weight (ids_of c.votes) (ids_of p.votes) vote_id + n)
                (votes_told-tell_status env c p w))

  pub news_grown :
      (a b c : List Text)
      → (includes a vote_id ≡ true → includes b vote_id ≡ true)
      → (includes b vote_id ≡ true → includes c vote_id ≡ true)
      → news weight b c vote_id + news weight a b vote_id ≡ news weight a c vote_id
  news_grown a b c ab bc = ground arith

-- The proposals of ticks, in the order of the steps for them.
abbrev pub steps_of {ℓ} : {E : Type ℓ} → List (E × List Proposal) → List Proposal
steps_of [] = []
steps_of ((env, proposals) ∷ ticks) = proposals ++ steps_of ticks

-- Each record with this id is later than the one before.
abbrev pub IsHistory : ℕ → (Text → ℕ) → Proposal → List Proposal → Type 0
IsHistory id weight c [] = Unit {0}
IsHistory id weight c (p ∷ ps) =
    if p.id == id then IsLater weight c p × IsHistory id weight p ps else IsHistory id weight c ps

-- The last record with this id.
abbrev pub last_of : ℕ → Proposal → List Proposal → Proposal
last_of id c [] = c
last_of id c (p ∷ ps) = if p.id == id then last_of id p ps else last_of id c ps
