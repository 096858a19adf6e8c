-- ===== src/Webapp/Tests/Chains.antt =====
-- Proposals of the contract with what the index has of them (packages/nouns-webapp/src/wrappers/nounsDao.ts).
use sznouns.Prelude.{
  ℕ, ◌*◌, ◌≡◌, refl, true, false, Option, none, some, arith, leb, if◌then◌else◌, codes,
}
use sznouns.Webapp.Proposals.{
  ProposalState, pending, active, executed, cancelled, vetoed, defeated, queued,
  ProposalSubgraphEntity, get_proposal_state,
}
use sznouns.Webapp.Proposals.Chain.{
  ChainProposal, Mirrors, chain_state, get_proposal_state-eq-chain_state,
  get_proposal_state_no_votes,
}

-- A proposal that was queued.
abbrev queued_proposal : ChainProposal
queued_proposal = record {
  start_block = 100;
  end_block = 200;
  for_votes = 9;
  against_votes = 4;
  quorum_votes = 5;
  eta = 1000;
  vetoed = false;
  canceled = false;
  executed = false;
}

abbrev indexed : ChainProposal → ProposalState → Option ℕ → ProposalSubgraphEntity
indexed c status eta = record {
  id = codes "1";
  status = status;
  for_votes = c.for_votes;
  against_votes = c.against_votes;
  abstain_votes = 0;
  created_block = 90;
  start_block = c.start_block;
  end_block = c.end_block;
  execution_eta = eta;
  quorum_votes = c.quorum_votes;
}

queued_Mirrors : Mirrors 300 queued_proposal true false (indexed queued_proposal queued (some 1000))
queued_Mirrors = record {
  status = refl;
  end_block = refl;
  for_votes = refl;
  against_votes = refl;
  quorum_votes = refl;
  execution_eta = refl;
  cancelled_vetoed = λ h. absurd cc;
  voted = λ h. omega arith;
  ordered = omega arith;
  queued_late = λ h. omega arith;
  queued_won = λ h. (omega arith, omega arith);
  executed_queued = λ h. absurd cc;
}

get_proposal_state-eq-chain_state_example :
    (get_proposal_state
        (some 300)
        (some (1300000 * 1000))
        (indexed queued_proposal queued (some 1000))
      ≡ (if false then cancelled else chain_state 300 1300000 queued_proposal))
    × ((if false then chain_state 300 1300000 queued_proposal else vetoed) ≡ vetoed)
get_proposal_state-eq-chain_state_example =
    get_proposal_state-eq-chain_state 300 1300000 queued_proposal true false
      (indexed queued_proposal queued (some 1000)) queued_Mirrors (omega arith) (λ h. absurd cc)

-- A proposal that nobody voted on.
abbrev silent_proposal : ChainProposal
silent_proposal = record queued_proposal { for_votes = 0; against_votes = 0; eta = 0 }

silent_Mirrors : Mirrors 300 silent_proposal false false (indexed silent_proposal pending none)
silent_Mirrors = record {
  status = refl;
  end_block = refl;
  for_votes = refl;
  against_votes = refl;
  quorum_votes = refl;
  execution_eta = refl;
  cancelled_vetoed = λ h. absurd cc;
  voted = λ h. absurd cc;
  ordered = omega arith;
  queued_late = λ h. absurd (omega arith);
  queued_won = λ h. absurd (omega arith);
  executed_queued = λ h. absurd cc;
}

get_proposal_state_no_votes_example :
    (get_proposal_state (some 300) (some (5000 * 1000)) (indexed silent_proposal pending none)
      ≡ pending)
    × (chain_state 300 5000 silent_proposal
        ≡ (if leb 300 silent_proposal.end_block then active else defeated))
get_proposal_state_no_votes_example =
    get_proposal_state_no_votes 300 5000 silent_proposal false false
      (indexed silent_proposal pending none) silent_Mirrors refl refl refl refl refl refl
      (omega arith)

-- One that was executed, whose time of execution the index forgets.
abbrev executed_proposal : ChainProposal
executed_proposal = record queued_proposal { executed = true }

executed_Mirrors :
    Mirrors 300 executed_proposal true false (indexed executed_proposal executed none)
executed_Mirrors = record {
  status = refl;
  end_block = refl;
  for_votes = refl;
  against_votes = refl;
  quorum_votes = refl;
  execution_eta = refl;
  cancelled_vetoed = λ h. absurd cc;
  voted = λ h. omega arith;
  ordered = omega arith;
  queued_late = λ h. omega arith;
  queued_won = λ h. (omega arith, omega arith);
  executed_queued = λ h. omega arith;
}

-- One that was vetoed and then cancelled.
abbrev vetoed_proposal : ChainProposal
vetoed_proposal = record queued_proposal { vetoed = true; canceled = true }

vetoed_Mirrors :
    Mirrors 300 vetoed_proposal true true (indexed vetoed_proposal cancelled (some 1000))
vetoed_Mirrors = record {
  status = refl;
  end_block = refl;
  for_votes = refl;
  against_votes = refl;
  quorum_votes = refl;
  execution_eta = refl;
  cancelled_vetoed = λ h. (refl, refl);
  voted = λ h. omega arith;
  ordered = omega arith;
  queued_late = λ h. omega arith;
  queued_won = λ h. (omega arith, omega arith);
  executed_queued = λ h. absurd cc;
}
