-- ===== src/Bots/Governance/Warnings.antt =====
-- Warnings of expiry in the governance loop of packages/nouns-bots/src/index.ts.
use sznouns.Prelude.{
  ℕ, ◌≤◌, ◌≡◌, refl, sym, ap, subst, ◌∙◌, Bool, true, false, List, [], ◌∷◌, arith, if◌then◌else◌,
  ◌==◌, ==_iff, Bool-cases, Option-cases, inl, inr,
}
use sznouns.Bots.{
  Redis, Proposal, Vote, Notice, new_proposal, proposal_at_risk_of_expiry, governance_vote,
}
use sznouns.Bots.Cache.{get_proposal_cache, has_warned_of_expiry}
use sznouns.Bots.Cache.Laws
use sznouns.Bots.Proposals.{extract_new_votes}
use sznouns.Bots.Ticks.{World, Env, notify, tell}
use sznouns.Bots.Ticks.Orderly.{tell-Agree}
use sznouns.Bots.Governance.{
  same_status, tell_votes, tell_status, process_proposal, process_governance_tick,
  process_governance_ticks,
}
use sznouns.Bots.Governance.Steps.{
  count, Accepts, AcceptsAll, saved, changed, changed-Agree, warned, is_due, process_proposal_new,
  process_proposal_seen,
}

abbrev pub is_warning_of : ℕ → Notice → Bool
is_warning_of id (proposal_at_risk_of_expiry p) = p.id == id
is_warning_of id _ = false

module _ (r : Redis) (id : ℕ) where
  open r use {Store}

  abbrev warnings : World r → ℕ
  warnings w = count (is_warning_of id) w.told

  -- At most one warning, and none before the mark of one.
  record IsWarnedOnce (w : World r) : Type 0 where
    once : warnings w ≤ 1
    unmarked : has_warned_of_expiry r id w.store ≡ false → warnings w ≡ 0

  IsWarnedOnce-same :
      (w w' : World r)
      → warnings w' ≡ warnings w
      → has_warned_of_expiry r id w'.store ≡ has_warned_of_expiry r id w.store
      → IsWarnedOnce w
      → IsWarnedOnce w'
  IsWarnedOnce-same w w' same kept o = record {
    once = rw same o.once;
    unmarked = λ e. same ∙ o.unmarked (sym kept ∙ e);
  }

  warnings-tell_votes :
      (env : Env r) (p : Proposal) (votes : List Vote) (w : World r)
      → warnings (tell_votes r env p votes w) ≡ warnings w
  unfolding tell_votes
  warnings-tell_votes env p [] w = refl
  warnings-tell_votes env p (v ∷ votes) w =
      warnings-tell_votes env p votes (notify r env (governance_vote p v) w).0

  warnings-tell_status :
      (env : Env r) (c p : Proposal) (w : World r)
      → warnings (tell_status r env c p w).0 ≡ warnings w
  unfolding tell_status
  warnings-tell_status env c p w = elim (Bool-cases (same_status c.status p.status)) [
    | inl t ↦ rw t refl
    | inr f ↦ rw f refl
  ]

  module _ (env : Env r) (accepts : Accepts r env) where
    changed-IsWarnedOnce :
        (c p : Proposal) (w : World r) → IsWarnedOnce w → IsWarnedOnce (changed r env accepts c p w)
    changed-IsWarnedOnce c p w =
        IsWarnedOnce-same w (changed r env accepts c p w)
          (warnings-tell_votes env p (extract_new_votes c p) (tell_status r env c p w).0
            ∙ warnings-tell_status env c p w)
          (Laws.has_warned_of_expiry-Agree r w.store (changed r env accepts c p w).store
            (changed-Agree r env accepts c p w) id)

    saved-IsWarnedOnce : (p : Proposal) (w : World r) → IsWarnedOnce w → IsWarnedOnce (saved r p w)
    saved-IsWarnedOnce p w =
        IsWarnedOnce-same w (saved r p w) refl
          (Laws.has_warned_of_expiry-update_proposal_cache r p id w.store)

    warned-IsWarnedOnce :
        (p : Proposal) (w : World r)
        → has_warned_of_expiry r p.id w.store ≡ false
        → IsWarnedOnce w
        → IsWarnedOnce (warned r env accepts p w)
    warned-IsWarnedOnce p w unmarked o =
        let s = (tell r env.handlers (proposal_at_risk_of_expiry p) w.store).0 in
        let mark = Laws.has_warned_of_expiry-set_proposal_expiry_warning_sent r p.id id s in
        let kept =
          Laws.has_warned_of_expiry-Agree r w.store s
            (tell-Agree r env.handlers (proposal_at_risk_of_expiry p) w.store) id in
        elim (Bool-cases (p.id == id)) [
          | inl e ↦
              let same : p.id ≡ id = (==_iff p.id id).0 e in
              let zero =
                o.unmarked (ap (λ i. has_warned_of_expiry r i w.store) (sym same) ∙ unmarked) in
              record {
                once = rw (e, zero) (omega arith);
                unmarked = λ h.
                    let t : true ≡ false =
                      sym (ap (λ b. if b then true else has_warned_of_expiry r id s) e)
                      ∙ (sym mark ∙ h) in
                    absurd cc;
              }
          | inr f ↦
              IsWarnedOnce-same w (warned r env accepts p w) (rw f refl) (mark ∙ (rw f kept)) o
        ]

    process_proposal-IsWarnedOnce :
        (p : Proposal) (w : World r) → IsWarnedOnce w → IsWarnedOnce (process_proposal r env p w)
    process_proposal-IsWarnedOnce p w o = elim (Option-cases (get_proposal_cache r p.id w.store)) [
      | inl new ↦
          let w1 = (notify r env (new_proposal p) w).0 in
          let kept =
            Laws.has_warned_of_expiry-Agree r w.store w1.store
              (tell-Agree r env.handlers (new_proposal p) w.store) id in
          subst IsWarnedOnce (sym (process_proposal_new r env accepts p w new))
            (saved-IsWarnedOnce p w1 (IsWarnedOnce-same w w1 refl kept o))
      | inr (c, seen) ↦
          let w2 = changed r env accepts c p w in
          let o2 = changed-IsWarnedOnce c p w o in
          subst IsWarnedOnce (sym (process_proposal_seen r env accepts c p w seen))
            (elim (Bool-cases (is_due r env accepts p w2)) [
              | inl t ↦ rw t (
                  saved-IsWarnedOnce p (warned r env accepts p w2)
                    (warned-IsWarnedOnce p w2 (ground arith) o2))
              | inr f ↦ rw f (saved-IsWarnedOnce p w2 o2)
            ])
    ]

    process_governance_tick-IsWarnedOnce :
        (proposals : List Proposal) (w : World r)
        → IsWarnedOnce w
        → IsWarnedOnce (process_governance_tick r env proposals w)
    unfolding process_governance_tick
    process_governance_tick-IsWarnedOnce [] w o = o
    process_governance_tick-IsWarnedOnce (p ∷ proposals) w o =
        process_governance_tick-IsWarnedOnce proposals (process_proposal r env p w)
          (process_proposal-IsWarnedOnce p w o)

  process_governance_ticks-IsWarnedOnce :
      (ticks : List (Env r × List Proposal)) (w : World r)
      → AcceptsAll r ticks
      → IsWarnedOnce w
      → IsWarnedOnce (process_governance_ticks r ticks w)
  unfolding process_governance_ticks
  process_governance_ticks-IsWarnedOnce [] w a o = o
  process_governance_ticks-IsWarnedOnce ((env, proposals) ∷ ticks) w (accepts, a) o =
      process_governance_ticks-IsWarnedOnce ticks (process_governance_tick r env proposals w) a
        (process_governance_tick-IsWarnedOnce env accepts proposals w o)

  -- If the handlers resolve, then from any store, over any ticks, whatever the proposals and the times
  -- are, a proposal's id is warned of at most once.
  pub process_governance_ticks-warned_once :
      (ticks : List (Env r × List Proposal)) (s : Store)
      → AcceptsAll r ticks
      → count
          (is_warning_of id)
          (process_governance_ticks r ticks (record { store = s; told = [] })).told
        ≤ 1
  process_governance_ticks-warned_once ticks s a =
      let o =
        process_governance_ticks-IsWarnedOnce ticks (record { store = s; told = [] }) a
          (record { once = omega arith; unmarked = λ e. refl }) in
      o.once
