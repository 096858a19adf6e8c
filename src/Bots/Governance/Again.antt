-- ===== src/Bots/Governance/Again.antt =====
-- A governance tick of packages/nouns-bots/src/index.ts that finds what the tick before found.
use sznouns.Prelude.{
  ℕ, ◌≡◌, refl, ap, ◌∙◌, true, false, some, List, [], ◌∷◌, All, arith, ◌==◌, Text, text_eq_iff,
}
use sznouns.Bots.{Redis, Proposal, ProposalStatus, Vote}
use sznouns.Bots.Cache.{get_proposal_cache}
use sznouns.Bots.Proposals.{ids_of, includes, filter_new, extract_new_votes, is_at_risk_of_expiry}
use sznouns.Bots.Ticks.{World, Env}
use sznouns.Bots.Governance.{
  same_status, tell_votes, tell_status, process_proposal, process_governance_tick,
}
use sznouns.Bots.Governance.Steps.{Accepts, process_proposal-cached, process_proposal_seen}

-- No two proposals have the same id.
abbrev pub HasDistinctIds : List Proposal → Type 0
HasDistinctIds [] = Unit {0}
HasDistinctIds (p ∷ ps) = All (λ (q : Proposal). p.id == q.id ≡ false) ps × HasDistinctIds ps

includes-cons :
    (i : Text) (ids : List Text) (id : Text) → includes ids id ≡ true → includes (i ∷ ids) id ≡ true
unfolding includes
includes-cons i ids id h = ground arith

filter_new_known :
    (ids : List Text) (votes : List Vote)
    → All (λ (v : Vote). includes ids v.id ≡ true) votes
    → filter_new ids votes ≡ []
filter_new_known ids [] h = refl
filter_new_known ids (v ∷ votes) (e, h) = rw e (filter_new_known ids votes h)

All-includes :
    (ids : List Text) (votes : List Vote)
    → ((id : Text) → includes (ids_of votes) id ≡ true → includes ids id ≡ true)
    → All (λ (v : Vote). includes ids v.id ≡ true) votes
unfolding includes
All-includes ids [] h = tt
All-includes ids (v ∷ votes) h = (
  h v.id (rw ((text_eq_iff v.id v.id).1 refl) refl),
  All-includes ids votes (λ id e. h id (includes-cons v.id (ids_of votes) id e)),
)

same_status_self : (s : ProposalStatus) → same_status s s ≡ true
same_status_self s = ground arith

extract_new_votes_self : (p : Proposal) → extract_new_votes p p ≡ []
unfolding extract_new_votes
extract_new_votes_self p =
    filter_new_known (ids_of p.votes) p.votes (All-includes (ids_of p.votes) p.votes (λ id e. e))

module _ (r : Redis) where
  -- Each proposal is cached as it is.
  abbrev IsCached : World r → List Proposal → Type 0
  IsCached w ps = All (λ (p : Proposal). get_proposal_cache r p.id w.store ≡ some p) ps

  module _ (env : Env r) (accepts : Accepts r env) where
    process_proposal-IsCached :
        (p : Proposal) (ps : List Proposal) (w : World r)
        → All (λ (q : Proposal). p.id == q.id ≡ false) ps
        → IsCached w ps
        → IsCached (process_proposal r env p w) ps
    process_proposal-IsCached p [] w d h = tt
    process_proposal-IsCached p (q ∷ ps) w (apart, d) (e, h) = (
      process_proposal-cached r env accepts p w q.id ∙ rw apart e,
      process_proposal-IsCached p ps w d h,
    )

    -- Proposals that a tick does not meet stay as they are.
    process_governance_tick-other :
        (ps : List Proposal) (w : World r) (j : ℕ)
        → All (λ (q : Proposal). j == q.id ≡ false) ps
        → get_proposal_cache r j (process_governance_tick r env ps w).store
          ≡ get_proposal_cache r j w.store
    unfolding process_governance_tick
    process_governance_tick-other [] w j d = refl
    process_governance_tick-other (q ∷ ps) w j (apart, d) =
        let apart' : q.id == j ≡ false = ground arith in
        process_governance_tick-other ps (process_proposal r env q w) j d
        ∙ (process_proposal-cached r env accepts q w j ∙ rw apart' refl)

    process_governance_tick-IsCached :
        (ps : List Proposal) (w : World r)
        → HasDistinctIds ps
        → IsCached (process_governance_tick r env ps w) ps
    unfolding process_governance_tick
    process_governance_tick-IsCached [] w d = tt
    process_governance_tick-IsCached (p ∷ ps) w (apart, d) = (
      process_governance_tick-other ps (process_proposal r env p w) p.id apart
          ∙ (process_proposal-cached r env accepts p w p.id
              ∙ (let own : p.id == p.id ≡ true = ground arith in rw own refl)),
      process_governance_tick-IsCached ps (process_proposal r env p w) d,
    )

    told-process_proposal :
        (p : Proposal) (w : World r)
        → get_proposal_cache r p.id w.store ≡ some p
        → is_at_risk_of_expiry env.now p ≡ false
        → (process_proposal r env p w).told ≡ w.told
    unfolding tell_status tell_votes
    told-process_proposal p w cached calm =
        ap (λ (v : World r). v.told) (process_proposal_seen r env accepts p p w cached)
        ∙ rw (calm, extract_new_votes_self p, same_status_self p.status) refl

    told-process_governance_tick :
        (ps : List Proposal) (w : World r)
        → HasDistinctIds ps
        → IsCached w ps
        → All (λ (p : Proposal). is_at_risk_of_expiry env.now p ≡ false) ps
        → (process_governance_tick r env ps w).told ≡ w.told
    unfolding process_governance_tick
    told-process_governance_tick [] w d h calm = refl
    told-process_governance_tick (p ∷ ps) w (apart, d) (e, h) (c, calm) =
        told-process_governance_tick ps (process_proposal r env p w) d
          (process_proposal-IsCached p ps w apart h) calm
        ∙ told-process_proposal p w e c

  -- If the handlers resolve and no two proposals have the same id, then a second tick with the same
  -- proposals, none of them at risk of expiry at its time, tells nothing.
  pub process_governance_tick-again :
      (env env' : Env r) (ps : List Proposal) (w : World r)
      → Accepts r env
      → Accepts r env'
      → HasDistinctIds ps
      → All (λ (p : Proposal). is_at_risk_of_expiry env'.now p ≡ false) ps
      → let w' = process_governance_tick r env ps w in
        (process_governance_tick r env' ps w').told ≡ w'.told
  process_governance_tick-again env env' ps w a a' d calm =
      told-process_governance_tick env' a' ps (process_governance_tick r env ps w) d
        (process_governance_tick-IsCached env a ps w d) calm
