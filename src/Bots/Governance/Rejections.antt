-- ===== src/Bots/Governance/Rejections.antt =====
-- Handlers that reject in the governance loop of packages/nouns-bots/src/index.ts.
use sznouns.Prelude.{
  ℕ, ◌≡◌, refl, ◌∙◌, true, false, not, ◌&&◌, Option, none, some, Bool-cases, inl, inr,
}
use sznouns.Bots.{Redis, Proposal, new_proposal, proposal_at_risk_of_expiry}
use sznouns.Bots.Cache.{get_proposal_cache, set_proposal_expiry_warning_sent, has_warned_of_expiry}
use sznouns.Bots.Cache.Laws
use sznouns.Bots.Proposals.{extract_new_votes, is_at_risk_of_expiry}
use sznouns.Bots.Ticks.{World, Env, ◌>>◌, write, notify}
use sznouns.Bots.Ticks.Orderly.{tell-Agree}
use sznouns.Bots.Ticks.Runs.{bind_keeps}
use sznouns.Bots.Governance.{
  tell_votes, tell_status, warn_of_expiry, tell_changes, process_proposal,
}
use sznouns.Bots.Governance.Steps.{tell_status-Agree, tell_votes-Agree}

module _ (r : Redis) (env : Env r) (p : Proposal) (j : ℕ) where
  open r use {Store}

  -- The same record is cached as in `w`.
  abbrev Keeps : World r → World r → Type 0
  Keeps w w' = get_proposal_cache r j w'.store ≡ get_proposal_cache r j w.store

  warn_of_expiry-Keeps : (w : World r) → Keeps w (warn_of_expiry r env p w).0
  unfolding warn_of_expiry
  warn_of_expiry-Keeps w =
      let w1 = (notify r env (proposal_at_risk_of_expiry p) w).0 in
      let kept =
        Laws.get_proposal_cache-Agree r w.store w1.store
          (tell-Agree r env.handlers (proposal_at_risk_of_expiry p) w.store) j in
      elim (Bool-cases
        (is_at_risk_of_expiry env.now p && not (has_warned_of_expiry r p.id w.store))) [
          | inr f ↦ rw f refl
          | inl t ↦ rw t (
              bind_keeps r (Keeps w) (notify r env (proposal_at_risk_of_expiry p))
                (write r (set_proposal_expiry_warning_sent r p.id)) w kept
                (Laws.get_proposal_cache-set_proposal_expiry_warning_sent r p.id j w1.store ∙ kept))
        ]

  tell_changes-Keeps :
      (cached : Option Proposal) (w : World r) → Keeps w (tell_changes r env p cached w).0
  tell_changes-Keeps none w =
      Laws.get_proposal_cache-Agree r w.store (notify r env (new_proposal p) w).0.store
        (tell-Agree r env.handlers (new_proposal p) w.store) j
  tell_changes-Keeps (some c) w =
      let w1 = (tell_status r env c p w).0 in
      let votes = extract_new_votes c p in
      let w2 = tell_votes r env p votes w1 in
      let kept1 =
        Laws.get_proposal_cache-Agree r w.store w1.store (tell_status-Agree r env c p w) j in
      let kept2 =
        Laws.get_proposal_cache-Agree r w1.store w2.store (tell_votes-Agree r env p votes w1) j in
      bind_keeps r (Keeps w) (tell_status r env c p)
        (◌>>◌ r (λ v. (tell_votes r env p votes v, true)) (warn_of_expiry r env p)) w kept1
        (warn_of_expiry-Keeps w2 ∙ (kept2 ∙ kept1))

  -- If a step for a proposal rejects, then no cached record changes, so that the next tick meets the
  -- proposal with the record that this one met it with.
  pub process_proposal-rejected :
      (w : World r)
      → (tell_changes r env p (get_proposal_cache r p.id w.store) w).1 ≡ false
      → get_proposal_cache r j (process_proposal r env p w).store ≡ get_proposal_cache r j w.store
  unfolding process_proposal
  process_proposal-rejected w e =
      rw (e, process_proposal) (tell_changes-Keeps (get_proposal_cache r p.id w.store) w)
