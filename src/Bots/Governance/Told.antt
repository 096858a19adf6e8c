-- ===== src/Bots/Governance/Told.antt =====
-- The votes that are told over a run of the governance loop of packages/nouns-bots/src/index.ts.
use sznouns.Prelude.{
  ℕ, ◌+◌, ◌≡◌, refl, sym, ap, subst, ◌∙◌, true, false, some, List, [], ◌∷◌, ◌++◌, arith, ◌==◌, Text,
  Bool-cases, inl, inr,
}
use sznouns.Bots.{Redis, Proposal}
use sznouns.Bots.Cache.{get_proposal_cache}
use sznouns.Bots.Proposals.{ids_of, includes}
use sznouns.Bots.Ticks.{World, Env}
use sznouns.Bots.Governance.{process_proposal, process_governance_tick, process_governance_ticks}
use sznouns.Bots.Governance.Steps.{count, Accepts, AcceptsAll, process_proposal-cached}
use sznouns.Bots.Governance.Votes.{
  is_vote_of, IsLater, news, votes_told, votes_told-other, votes_told-own, news_grown, steps_of,
  IsHistory, last_of,
}

module _ (r : Redis) (id : ℕ) (weight : Text → ℕ) (vote_id : Text) where
  open r use {Store}

  abbrev told_votes : World r → ℕ
  told_votes w = votes_told r id weight vote_id w

  -- From a first record `a`, the last record seen is `c`.
  record IsTold (a c : Proposal) (w : World r) : Type 0 where
    cached : get_proposal_cache r id w.store ≡ some c
    grown : includes (ids_of a.votes) vote_id ≡ true → includes (ids_of c.votes) vote_id ≡ true
    told : told_votes w ≡ news weight (ids_of a.votes) (ids_of c.votes) vote_id

  module _ (env : Env r) (accepts : Accepts r env) (a : Proposal) where
    process_proposal-IsTold_own :
        (c p : Proposal) (w : World r)
        → p.id == id ≡ true
        → IsLater weight c p
        → IsTold a c w
        → IsTold a p (process_proposal r env p w)
    process_proposal-IsTold_own c p w own later t = record {
      cached = process_proposal-cached r env accepts p w id ∙ rw own refl;
      grown = λ h. later.grown vote_id (t.grown h);
      told =
          votes_told-own r id weight vote_id env accepts c p w own t.cached later
          ∙ (ap (λ n. news weight (ids_of c.votes) (ids_of p.votes) vote_id + n) t.told
              ∙ news_grown r id weight vote_id (ids_of a.votes) (ids_of c.votes) (ids_of p.votes)
                  t.grown (later.grown vote_id));
    }

    process_proposal-IsTold_other :
        (c p : Proposal) (w : World r)
        → p.id == id ≡ false
        → IsTold a c w
        → IsTold a c (process_proposal r env p w)
    process_proposal-IsTold_other c p w other t = record {
      cached = process_proposal-cached r env accepts p w id ∙ rw other t.cached;
      grown = t.grown;
      told = votes_told-other r id weight vote_id env accepts p w other ∙ t.told;
    }

    process_governance_tick-IsTold :
        (proposals rest : List Proposal) (c : Proposal) (w : World r)
        → IsTold a c w
        → IsHistory id weight c (proposals ++ rest)
        → (d : Proposal) × IsTold a d (process_governance_tick r env proposals w)
          × IsHistory id weight d rest
          × (last_of id c (proposals ++ rest) ≡ last_of id d rest)
    unfolding process_governance_tick
    process_governance_tick-IsTold [] rest c w t h = (c, t, h, refl)
    process_governance_tick-IsTold (p ∷ proposals) rest c w t h = elim (Bool-cases (p.id == id)) [
      | inl own ↦
          let (later, h') = rw own at h in
          let (d, t', h'', e) =
            process_governance_tick-IsTold proposals rest p (process_proposal r env p w)
              (process_proposal-IsTold_own c p w own later t) h' in
          (d, t', h'', rw own e)
      | inr other ↦
          let (d, t', h'', e) =
            process_governance_tick-IsTold proposals rest c (process_proposal r env p w)
              (process_proposal-IsTold_other c p w other t) (rw other at h) in
          (d, t', h'', rw other e)
    ]

  process_governance_ticks-IsTold :
      (ticks : List (Env r × List Proposal)) (a c : Proposal) (w : World r)
      → AcceptsAll r ticks
      → IsTold a c w
      → IsHistory id weight c (steps_of ticks)
      → IsTold a (last_of id c (steps_of ticks)) (process_governance_ticks r ticks w)
  unfolding process_governance_ticks
  process_governance_ticks-IsTold [] a c w all t h = t
  process_governance_ticks-IsTold ((env, proposals) ∷ ticks) a c w (accepts, all) t h =
      let (d, t', h', e) =
        process_governance_tick-IsTold env accepts a proposals (steps_of ticks) c w t h in
      subst
        (λ l.
          IsTold a l (process_governance_ticks r ticks (process_governance_tick r env proposals w)))
        (sym e)
        (process_governance_ticks-IsTold ticks a d (process_governance_tick r env proposals w) all
          t' h')

  -- Let the handlers resolve, a proposal with this id be cached, and its records in the ticks be each
  -- later than the one before, with votes that keep their weights. Then of its votes those are told, and
  -- exactly once, that have weight, are in its last record, and are not in the cached one.
  pub process_governance_ticks-votes :
      (ticks : List (Env r × List Proposal)) (s : Store) (c : Proposal)
      → AcceptsAll r ticks
      → get_proposal_cache r id s ≡ some c
      → IsHistory id weight c (steps_of ticks)
      → count
          (is_vote_of id vote_id)
          (process_governance_ticks r ticks (record { store = s; told = [] })).told
        ≡ news weight (ids_of c.votes) (ids_of (last_of id c (steps_of ticks)).votes) vote_id
  process_governance_ticks-votes ticks s c all cached h =
      let start : IsTold c c (record { store = s; told = [] }) = record {
        cached = cached;
        grown = λ e. e;
        told = ground arith;
      } in
      let t =
        process_governance_ticks-IsTold ticks c c (record { store = s; told = [] }) all start h in
      t.told
