-- ===== src/Webapp/Proposals.antt =====
-- The state of a proposal that pages show (packages/nouns-webapp/src/wrappers/nounsDao.ts), from what the
-- index says of it. The numbers of the index, which are texts of digits, stand here as numbers.
pub mod Chain
use sznouns.Prelude.{
  ℕ, zero, suc, ◌+◌, ◌*◌, Bool, true, false, ◌&&◌, ◌||◌, Option, none, some, List, [], ◌∷◌, ltb,
  leb, if◌then◌else◌, Text,
}

pub data ProposalState : Type 0 where
  undetermined : ProposalState
  pending : ProposalState
  active : ProposalState
  cancelled : ProposalState
  defeated : ProposalState
  succeeded : ProposalState
  queued : ProposalState
  expired : ProposalState
  executed : ProposalState
  vetoed : ProposalState

pub record ProposalSubgraphEntity : Type 0 where
  pub id : Text
  pub status : ProposalState
  pub for_votes : ℕ
  pub against_votes : ℕ
  pub abstain_votes : ℕ
  pub created_block : ℕ
  pub start_block : ℕ
  pub end_block : ℕ
  pub execution_eta : Option ℕ
  pub quorum_votes : ℕ

abbrev pub grace_period : ℕ
grace_period = 14 * 60 * 60 * 24

-- A missing number is falsy, and so is 0.
abbrev pub truthy : Option ℕ → Option ℕ
truthy none = none
truthy (some zero) = none
truthy (some (suc n)) = some (suc n)

abbrev pub ended_state : ProposalSubgraphEntity → ProposalState
ended_state p =
    if leb p.for_votes p.against_votes || ltb p.for_votes p.quorum_votes
    then defeated
    else elim p.execution_eta [ none ↦ succeeded | some eta ↦ active ]

abbrev pub active_state : Option ℕ → ProposalSubgraphEntity → ProposalState
active_state block_number p = elim (truthy block_number) [
  | none ↦ undetermined
  | some n ↦ if ltb p.end_block n then ended_state p else active
]

-- The time is in milliseconds.
abbrev pub queued_state : Option ℕ → Option ℕ → ProposalState
queued_state none eta = undetermined
queued_state (some time) none = undetermined
queued_state (some time) (some eta) =
    if leb ((eta + grace_period) * 1000) time then expired else queued

abbrev pub state_from : ProposalState → Option ℕ → Option ℕ → ProposalSubgraphEntity → ProposalState
state_from active block_number block_timestamp p = active_state block_number p
state_from queued block_number block_timestamp p = queued_state block_timestamp p.execution_eta
state_from status block_number block_timestamp p = status

unfoldable pub get_proposal_state : Option ℕ → Option ℕ → ProposalSubgraphEntity → ProposalState
get_proposal_state block_number block_timestamp p =
    state_from p.status block_number block_timestamp p

-- The proposal ids 1, 2, … of a count, each as the argument of a call.
abbrev pub indices_from : ℕ → ℕ → List (List ℕ)
indices_from i zero = []
indices_from i (suc n) = ((i + 1) ∷ []) ∷ indices_from (i + 1) n

unfoldable pub count_to_indices : Option ℕ → List (List ℕ)
count_to_indices none = []
count_to_indices (some count) = indices_from 0 count
