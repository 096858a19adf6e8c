-- ===== src/Bots/Governance/Steps.antt =====
-- The steps of one proposal in the governance loop of packages/nouns-bots/src/index.ts, for handlers
-- that resolve.
use sznouns.Prelude.{
  ℕ, suc, ◌≡◌, refl, ap, ◌∙◌, Bool, true, not, ◌&&◌, none, some, List, [], ◌∷◌, All, if◌then◌else◌,
  ◌==◌, Bool-cases, Option-cases, inl, inr,
}
use sznouns.Bots.{
  Redis, Proposal, Vote, Notice, new_proposal, updated_proposal_status, proposal_at_risk_of_expiry,
  governance_vote,
}
use sznouns.Bots.Cache.{
  update_proposal_cache, get_proposal_cache, set_proposal_expiry_warning_sent, has_warned_of_expiry,
}
use sznouns.Bots.Cache.Laws
use sznouns.Bots.Cache.Laws.{Agree}
use sznouns.Bots.Proposals.{extract_new_votes, is_at_risk_of_expiry}
use sznouns.Bots.Ticks.{World, Env, ◌>>◌, write, notify, tell}
use sznouns.Bots.Ticks.Orderly.{tell-Agree}
use sznouns.Bots.Governance.{
  same_status, tell_votes, tell_status, warn_of_expiry, tell_changes, process_proposal,
}

-- The notices that pass a test.
abbrev pub count : (Notice → Bool) → List Notice → ℕ
count test [] = 0
count test (n ∷ ns) = if test n then suc (count test ns) else count test ns

module _ (r : Redis) where
  open r use {Store, get}

  -- Every handler resolves, whatever it is told.
  abbrev pub Accepts : Env r → Type 0
  Accepts env = (n : Notice) (s : Store) → (tell r env.handlers n s).1 ≡ true

  abbrev pub AcceptsAll : List (Env r × List Proposal) → Type 0
  AcceptsAll ticks = All (λ (t : Env r × List Proposal). Accepts t.0) ticks

  -- The world once a proposal is cached.
  abbrev pub saved : Proposal → World r → World r
  saved p w = (write r (update_proposal_cache r p) w).0

  pub tell_status-Agree :
      (env : Env r) (c p : Proposal) (w : World r)
      → Agree r w.store (tell_status r env c p w).0.store
  unfolding tell_status
  tell_status-Agree env c p w = elim (Bool-cases (same_status c.status p.status)) [
    | inl t ↦ rw t (λ key apart. refl)
    | inr f ↦ rw f (tell-Agree r env.handlers (updated_proposal_status p) w.store)
  ]

  pub tell_votes-Agree :
      (env : Env r) (p : Proposal) (votes : List Vote) (w : World r)
      → Agree r w.store (tell_votes r env p votes w).store
  unfolding tell_votes
  tell_votes-Agree env p [] w key apart = refl
  tell_votes-Agree env p (v ∷ votes) w key apart =
      tell_votes-Agree env p votes (notify r env (governance_vote p v) w).0 key apart
      ∙ tell-Agree r env.handlers (governance_vote p v) w.store key apart

  module _ (env : Env r) (accepts : Accepts env) where
    tell_status_resolves : (c p : Proposal) (w : World r) → (tell_status r env c p w).1 ≡ true
    unfolding tell_status
    tell_status_resolves c p w = elim (Bool-cases (same_status c.status p.status)) [
      | inl t ↦ rw t refl
      | inr f ↦ rw f (accepts (updated_proposal_status p) w.store)
    ]

    -- What a warning leaves, if one is due.
    abbrev pub warned : Proposal → World r → World r
    warned p w = record {
      store =
          set_proposal_expiry_warning_sent r p.id
            (tell r env.handlers (proposal_at_risk_of_expiry p) w.store).0;
      told = proposal_at_risk_of_expiry p ∷ w.told;
    }

    abbrev pub is_due : Proposal → World r → Bool
    is_due p w = is_at_risk_of_expiry env.now p && not (has_warned_of_expiry r p.id w.store)

    warn_of_expiry_lem :
        (p : Proposal) (w : World r)
        → warn_of_expiry r env p w ≡ (if is_due p w then (warned p w, true) else (w, true))
    unfolding warn_of_expiry
    warn_of_expiry_lem p w = elim (Bool-cases (is_due p w)) [
      | inl t ↦ rw (t, accepts (proposal_at_risk_of_expiry p) w.store) refl
      | inr f ↦ rw f refl
    ]

    -- The world after the notices of changes.
    abbrev pub changed : Proposal → Proposal → World r → World r
    changed c p w = tell_votes r env p (extract_new_votes c p) (tell_status r env c p w).0

    pub process_proposal_new :
        (p : Proposal) (w : World r)
        → get_proposal_cache r p.id w.store ≡ none
        → process_proposal r env p w ≡ saved p (notify r env (new_proposal p) w).0
    unfolding process_proposal
    process_proposal_new p w e =
        ap (λ o. (◌>>◌ r (tell_changes r env p o) (write r (update_proposal_cache r p)) w).0) e
        ∙ rw (accepts (new_proposal p) w.store) refl

    pub process_proposal_seen :
        (c p : Proposal) (w : World r)
        → get_proposal_cache r p.id w.store ≡ some c
        → process_proposal r env p w
          ≡ saved p (let w2 = changed c p w in if is_due p w2 then warned p w2 else w2)
    unfolding process_proposal
    process_proposal_seen c p w e =
        let w2 = changed c p w in
        ap (λ o. (◌>>◌ r (tell_changes r env p o) (write r (update_proposal_cache r p)) w).0) e
        ∙ rw (tell_status_resolves c p w, warn_of_expiry_lem p w2)
            (elim (Bool-cases (is_due p w2)) [ inl t ↦ rw t refl | inr f ↦ rw f refl ])

    pub changed-Agree : (c p : Proposal) (w : World r) → Agree r w.store (changed c p w).store
    changed-Agree c p w key apart =
        tell_votes-Agree env p (extract_new_votes c p) (tell_status r env c p w).0 key apart
        ∙ tell_status-Agree env c p w key apart

    get_proposal_cache-due :
        (p : Proposal) (w : World r) (j : ℕ)
        → get_proposal_cache r j (if is_due p w then warned p w else w).store
          ≡ get_proposal_cache r j w.store
    get_proposal_cache-due p w j = elim (Bool-cases (is_due p w)) [
      | inl t ↦
          let s = (tell r env.handlers (proposal_at_risk_of_expiry p) w.store).0 in
          rw t (
            Laws.get_proposal_cache-set_proposal_expiry_warning_sent r p.id j s
            ∙ Laws.get_proposal_cache-Agree r w.store s
                (tell-Agree r env.handlers (proposal_at_risk_of_expiry p) w.store) j)
      | inr f ↦ rw f refl
    ]

    -- A proposal is cached, and no other one is touched.
    pub process_proposal-cached :
        (p : Proposal) (w : World r) (j : ℕ)
        → get_proposal_cache r j (process_proposal r env p w).store
          ≡ (if p.id == j then some p else get_proposal_cache r j w.store)
    process_proposal-cached p w j =
        let kept =
          λ (v : World r) (e : get_proposal_cache r j v.store ≡ get_proposal_cache r j w.store).
            Laws.get_proposal_cache-update_proposal_cache r p j v.store
            ∙ ap (λ o. if p.id == j then some p else o) e in
        elim (Option-cases (get_proposal_cache r p.id w.store)) [
          | inl new ↦
              let w1 = (notify r env (new_proposal p) w).0 in
              ap (λ (v : World r). get_proposal_cache r j v.store) (process_proposal_new p w new)
              ∙ kept w1 (
                  Laws.get_proposal_cache-Agree r w.store w1.store
                    (tell-Agree r env.handlers (new_proposal p) w.store) j)
          | inr (c, seen) ↦
              let w2 = changed c p w in
              ap (λ (v : World r). get_proposal_cache r j v.store)
                (process_proposal_seen c p w seen)
              ∙ kept (if is_due p w2 then warned p w2 else w2) (
                  get_proposal_cache-due p w2 j
                  ∙ Laws.get_proposal_cache-Agree r w.store w2.store (changed-Agree c p w) j)
        ]
