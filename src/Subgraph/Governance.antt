-- ===== src/Subgraph/Governance.antt =====
-- The handlers of the DAO's events (packages/nouns-subgraph/src/nouns-dao.ts). `none` is a trap: a field
-- that is read was never set.
pub mod Tally
use sznouns.Prelude.{
  ℕ, Bool, true, false, Option, none, some, List, [], ◌∷◌, ◌++◌, ◌==◌, if◌then◌else◌, Text, text_eq,
  codes,
}
use sznouns.Prelude.Int.{ℤ, pos, ◌+ℤ◌, ◌-ℤ◌, leb_ℤ}
use sznouns.Subgraph.Graph.{Graph}
use sznouns.Subgraph.Entities.{
  Proposal, Vote, Delegate, Governance, Store, Status, pending, active, cancelled, vetoed, queued,
  executed, delegate_not_found_on_proposal, delegate_not_found_on_vote,
}
use sznouns.Subgraph.Helpers.{
  get_or_create_delegate, get_or_create_proposal, get_or_create_vote, get_governance_entity,
  save_proposal, save_vote, save_governance, bigint_zero, bigint_one,
}
use sznouns.Subgraph.Auctions.{log_error}

pub record ProposalCreatedWithRequirements : Type 0 where
  pub id : ℕ
  pub proposer : ℕ
  pub targets : List Text
  pub values : List ℤ
  pub signatures : List Text
  pub calldatas : List Text
  pub start_block : ℤ
  pub end_block : ℤ
  pub proposal_threshold : ℤ
  pub quorum_votes : ℤ
  pub description : Text
  pub block_timestamp : ℤ
  pub block_number : ℤ
  pub transaction_hash : Text

pub record ProposalQueued : Type 0 where
  pub id : ℕ
  pub eta : ℤ

pub record VoteCast : Type 0 where
  pub voter : ℕ
  pub proposal_id : ℕ
  pub support : ℕ
  pub votes : ℤ
  pub reason : Text

-- `description.split('\\n').join('\n')`: a backslash and an n become a line break.
unfoldable pub unescape : Text → Text
unescape [] = []
unescape (a ∷ []) = a ∷ []
unescape (a ∷ b ∷ t) = elim (a == 92) [
  | true ↦ elim (b == 110) [ true ↦ 10 ∷ unescape t | false ↦ a ∷ unescape (b ∷ t) ]
  | false ↦ a ∷ unescape (b ∷ t)
]

infixl 5 ◌>>=◌
abbrev pub ◌>>=◌ {ℓ κ} : {A : Type ℓ} {B : Type κ} → Option A → (A → Option B) → Option B
none >>= f = none
some a >>= f = f a

-- Adding votes to a tally, and the status that the first vote gives.
abbrev pub add_votes : ℕ → ℤ → Proposal → Option Proposal
add_votes support votes p =
    if support == 0
    then p.against_votes >>= (λ n. some (record p { against_votes = some (n +ℤ votes) }))
    else if support == 1
    then p.for_votes >>= (λ n. some (record p { for_votes = some (n +ℤ votes) }))
    else if support == 2
    then p.abstain_votes >>= (λ n. some (record p { abstain_votes = some (n +ℤ votes) }))
    else some p

abbrev pub is_pending : Status → Bool
is_pending pending = true
is_pending _ = false

abbrev pub activate : Proposal → Option Proposal
activate p =
    p.status
    >>= (λ status. some (if is_pending status then record p { status = some active } else p))

abbrev pub cast_vote : VoteCast → Proposal → Delegate → Vote → Vote
cast_vote e proposal voter vote = record vote {
  proposal = some proposal.id;
  voter = some voter.id;
  votes_raw = some e.votes;
  votes = some e.votes;
  support = some (e.support == 1);
  support_detailed = some e.support;
  nouns = voter.nouns_represented;
  reason = if text_eq e.reason [] then vote.reason else some e.reason;
}

module _ (g : Graph) where
  open g use {load, save, to_string, to_hex_string}

  abbrev pub log_unless_delegate : Option Delegate → (Store g → Store g) → Store g → Store g
  log_unless_delegate none report s = report s
  log_unless_delegate (some d) report s = s

  unfoldable pub handle_proposal_created : ProposalCreatedWithRequirements → Store g → Store g
  unfolding get_or_create_proposal get_or_create_delegate unescape
  handle_proposal_created e s =
      let (s1, proposal) = get_or_create_proposal g (to_string e.id) s in
      let proposer_id = to_hex_string e.proposer in
      let s2 =
        log_unless_delegate (load proposer_id s1.delegates)
          (log_error g (delegate_not_found_on_proposal proposer_id)) s1 in
      let (s3, proposer) = get_or_create_delegate g proposer_id s2 in
      save_proposal g
        (record proposal {
          proposer = some proposer.id;
          targets = e.targets;
          values = e.values;
          signatures = e.signatures;
          calldatas = e.calldatas;
          created_timestamp = some e.block_timestamp;
          created_block = some e.block_number;
          created_transaction_hash = some e.transaction_hash;
          start_block = some e.start_block;
          end_block = some e.end_block;
          proposal_threshold = some e.proposal_threshold;
          quorum_votes = some e.quorum_votes;
          for_votes = some bigint_zero;
          against_votes = some bigint_zero;
          abstain_votes = some bigint_zero;
          description = some (unescape e.description);
          status = some (if leb_ℤ e.start_block e.block_number then active else pending);
        })
        s3

  -- `handleProposalCanceled` and `handleProposalVetoed`.
  unfoldable pub set_status : Status → ℕ → Store g → Store g
  unfolding get_or_create_proposal
  set_status status id s =
      let (s', proposal) = get_or_create_proposal g (to_string id) s in
      save_proposal g (record proposal { status = some status }) s'

  unfoldable pub handle_proposal_canceled : ℕ → Store g → Store g
  unfolding set_status
  handle_proposal_canceled = set_status cancelled

  unfoldable pub handle_proposal_vetoed : ℕ → Store g → Store g
  unfolding set_status
  handle_proposal_vetoed = set_status vetoed

  -- The governance entity is loaded first, and saved last.
  unfoldable pub handle_proposal_queued : ProposalQueued → Store g → Store g
  unfolding get_or_create_proposal get_governance_entity
  handle_proposal_queued e s =
      let governance = get_governance_entity g s in
      let (s', proposal) = get_or_create_proposal g (to_string e.id) s in
      save_governance g
        (record governance { proposals_queued = governance.proposals_queued +ℤ bigint_one })
        (save_proposal g (record proposal { status = some queued; execution_eta = some e.eta }) s')

  unfoldable pub handle_proposal_executed : ℕ → Store g → Store g
  unfolding get_or_create_proposal get_governance_entity
  handle_proposal_executed id s =
      let governance = get_governance_entity g s in
      let (s', proposal) = get_or_create_proposal g (to_string id) s in
      save_governance g
        (record governance { proposals_queued = governance.proposals_queued -ℤ bigint_one })
        (save_proposal g (record proposal { status = some executed; execution_eta = none }) s')

  abbrev pub vote_id : VoteCast → Text
  vote_id e = to_hex_string e.voter ++ (codes "-" ++ to_string e.proposal_id)

  unfoldable pub handle_vote_cast : VoteCast → Store g → Option (Store g)
  unfolding get_or_create_proposal get_or_create_delegate get_or_create_vote
  handle_vote_cast e s =
      let (s1, proposal) = get_or_create_proposal g (to_string e.proposal_id) s in
      let vote = get_or_create_vote g (vote_id e) s1 in
      let voter_id = to_hex_string e.voter in
      let s2 =
        log_unless_delegate (load voter_id s1.delegates)
          (log_error g (delegate_not_found_on_vote voter_id)) s1 in
      let (s3, voter) = get_or_create_delegate g voter_id s2 in
      let s4 = save_vote g (cast_vote e proposal voter vote) s3 in
      do
        counted ← add_votes e.support e.votes proposal
        opened ← activate counted
        some (save_proposal g opened s4)
