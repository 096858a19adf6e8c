-- ===== src/Subgraph/Helpers.antt =====
-- Loading or creating entities (packages/nouns-subgraph/src/utils/helpers.ts, utils/constants.ts). With
-- `createIfNotFound` false these functions are a plain load.
pub mod Stored
use sznouns.Prelude.{
  ℕ, Bool, true, false, Option, none, some, List, [], ◌∷◌, ◌++◌, if◌then◌else◌, Text, text_eq,
  codes,
}
use sznouns.Prelude.Int.{ℤ, pos, ◌+ℤ◌}
use sznouns.Subgraph.Graph.{Graph}
use sznouns.Subgraph.Entities.{Account, Delegate, Governance, Proposal, Vote, Store}

unfoldable pub zero_address : Text
zero_address = codes "0x0000000000000000000000000000000000000000"

abbrev pub bigint_zero : ℤ
bigint_zero = pos 0

abbrev pub bigint_one : ℤ
bigint_one = pos 1

abbrev pub governance_id : Text
governance_id = codes "GOVERNANCE"

abbrev pub new_account : Text → Account
new_account id = record {
  id = id;
  delegate = none;
  token_balance_raw = bigint_zero;
  token_balance = bigint_zero;
  total_tokens_held_raw = bigint_zero;
  total_tokens_held = bigint_zero;
  nouns = [];
}

abbrev pub new_delegate : Text → Delegate
new_delegate id = record {
  id = id;
  delegated_votes_raw = bigint_zero;
  delegated_votes = bigint_zero;
  token_holders_represented_amount = 0;
  nouns_represented = [];
}

abbrev pub new_proposal : Text → Proposal
new_proposal id = record {
  id = id;
  proposer = none;
  targets = [];
  values = [];
  signatures = [];
  calldatas = [];
  created_timestamp = none;
  created_block = none;
  created_transaction_hash = none;
  start_block = none;
  end_block = none;
  proposal_threshold = none;
  quorum_votes = none;
  for_votes = none;
  against_votes = none;
  abstain_votes = none;
  description = none;
  status = none;
  execution_eta = none;
}

abbrev pub new_vote : Text → Vote
new_vote id = record {
  id = id;
  support = none;
  support_detailed = none;
  votes_raw = none;
  votes = none;
  reason = none;
  voter = none;
  nouns = [];
  proposal = none;
}

abbrev pub new_governance : Governance
new_governance = record {
  proposals = bigint_zero;
  current_token_holders = bigint_zero;
  current_delegates = bigint_zero;
  total_token_holders = bigint_zero;
  total_delegates = bigint_zero;
  delegated_votes_raw = bigint_zero;
  delegated_votes = bigint_zero;
  proposals_queued = bigint_zero;
}

abbrev pub or_new {ℓ} : {A : Type ℓ} → Option A → A → A
or_new none d = d
or_new (some a) d = a

module _ (g : Graph) where
  open g use {load, save}

  abbrev pub save_account : Account → Store g → Store g
  save_account a s = record s { accounts = save a.id a s.accounts }

  abbrev pub save_delegate : Delegate → Store g → Store g
  save_delegate d s = record s { delegates = save d.id d s.delegates }

  abbrev pub save_proposal : Proposal → Store g → Store g
  save_proposal p s = record s { proposals = save p.id p s.proposals }

  abbrev pub save_vote : Vote → Store g → Store g
  save_vote v s = record s { votes = save v.id v s.votes }

  abbrev pub save_governance : Governance → Store g → Store g
  save_governance v s = record s { governances = save governance_id v s.governances }

  unfoldable pub get_governance_entity : Store g → Governance
  get_governance_entity s = or_new (load governance_id s.governances) new_governance

  unfoldable pub get_or_create_account : Text → Store g → Store g × Account
  get_or_create_account id s = elim (load id s.accounts) [
    | some a ↦ (s, a)
    | none ↦ (save_account (new_account id) s, new_account id)
  ]

  -- A new delegate is counted, but for the zero address.
  abbrev pub count_delegate : Text → Store g → Store g
  count_delegate id s =
      let governance = get_governance_entity s in
      if text_eq id zero_address
      then s
      else save_governance
          (record governance { total_delegates = governance.total_delegates +ℤ bigint_one }) s

  unfoldable pub get_or_create_delegate : Text → Store g → Store g × Delegate
  unfolding get_governance_entity
  get_or_create_delegate id s = elim (load id s.delegates) [
    | some d ↦ (s, d)
    | none ↦ (save_delegate (new_delegate id) (count_delegate id s), new_delegate id)
  ]

  -- The handlers save a vote themselves.
  unfoldable pub get_or_create_vote : Text → Store g → Vote
  get_or_create_vote id s = or_new (load id s.votes) (new_vote id)

  -- A new proposal is counted, and saved by the handler.
  unfoldable pub get_or_create_proposal : Text → Store g → Store g × Proposal
  unfolding get_governance_entity
  get_or_create_proposal id s = elim (load id s.proposals) [
    | some p ↦ (s, p)
    | none ↦
        let governance = get_governance_entity s in
        (
          save_governance (record governance { proposals = governance.proposals +ℤ bigint_one }) s,
          new_proposal id,
        )
  ]
