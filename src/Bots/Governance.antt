-- ===== src/Bots/Governance.antt =====
-- The bot's governance loop (packages/nouns-bots/src/index.ts). The tick does not wait for its proposals,
-- which here come one after the other; a rejection ends the steps of its proposal alone.
pub mod Steps
pub mod Warnings
pub mod Again
pub mod Votes
pub mod Told
pub mod Rejections
use sznouns.Prelude.{
  ℕ, Bool, true, false, not, ◌&&◌, Option, none, some, List, [], ◌∷◌, if◌then◌else◌, ◌==◌,
}
use sznouns.Bots.{
  Redis, Proposal, ProposalStatus, active, cancelled, executed, pending, queued, vetoed, Vote,
  Notice, new_proposal, updated_proposal_status, proposal_at_risk_of_expiry, governance_vote,
}
use sznouns.Bots.Cache.{
  update_proposal_cache, get_proposal_cache, set_proposal_expiry_warning_sent, has_warned_of_expiry,
}
use sznouns.Bots.Proposals.{extract_new_votes, is_at_risk_of_expiry}
use sznouns.Bots.Ticks.{World, Env, Action, ◌>>◌, skip, write, notify}

abbrev pub status_code : ProposalStatus → ℕ
status_code pending = 0
status_code active = 1
status_code cancelled = 2
status_code queued = 3
status_code executed = 4
status_code vetoed = 5

-- `===` on statuses.
abbrev pub same_status : ProposalStatus → ProposalStatus → Bool
same_status a b = status_code a == status_code b

module _ (r : Redis) where
  open r use {Store}

  unfoldable pub setup_governance : List Proposal → World r → World r
  setup_governance [] w = w
  setup_governance (p ∷ proposals) w =
      setup_governance proposals (write r (update_proposal_cache r p) w).0

  -- Nothing waits for the handlers of votes, so that no rejection of theirs is seen.
  unfoldable pub tell_votes : Env r → Proposal → List Vote → World r → World r
  tell_votes env p [] w = w
  tell_votes env p (vote ∷ votes) w =
      tell_votes env p votes (notify r env (governance_vote p vote) w).0

  unfoldable pub tell_status : Env r → Proposal → Proposal → Action r
  tell_status env cached_proposal p =
      if same_status cached_proposal.status p.status
      then skip r
      else notify r env (updated_proposal_status p)

  unfoldable pub warn_of_expiry : Env r → Proposal → Action r
  warn_of_expiry env p w =
      if is_at_risk_of_expiry env.now p && not (has_warned_of_expiry r p.id w.store)
      then ◌>>◌ r (notify r env (proposal_at_risk_of_expiry p))
          (write r (set_proposal_expiry_warning_sent r p.id)) w
      else (w, true)

  abbrev pub tell_changes : Env r → Proposal → Option Proposal → Action r
  tell_changes env p none = notify r env (new_proposal p)
  tell_changes env p (some cached_proposal) = ◌>>◌ r (tell_status env cached_proposal p) (
      ◌>>◌ r (λ w. (tell_votes env p (extract_new_votes cached_proposal p) w, true))
        (warn_of_expiry env p))

  unfoldable pub process_proposal : Env r → Proposal → World r → World r
  process_proposal env p w =
      (◌>>◌ r (tell_changes env p (get_proposal_cache r p.id w.store))
        (write r (update_proposal_cache r p)) w).0

  unfoldable pub process_governance_tick : Env r → List Proposal → World r → World r
  process_governance_tick env [] w = w
  process_governance_tick env (p ∷ proposals) w =
      process_governance_tick env proposals (process_proposal env p w)

  -- One tick after the other.
  unfoldable pub process_governance_ticks : List (Env r × List Proposal) → World r → World r
  process_governance_ticks [] w = w
  process_governance_ticks ((env, proposals) ∷ ticks) w =
      process_governance_ticks ticks (process_governance_tick env proposals w)
