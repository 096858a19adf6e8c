-- ===== src/Subgraph/Entities.antt =====
-- The entities that the handlers load and save (packages/nouns-subgraph/schema.graphql), and the store
-- of all of them. A field that a new entity has not set is `none`.
use sznouns.Prelude.{ℕ, Bool, Option, List, Text}
use sznouns.Prelude.Int.{ℤ}
use sznouns.Subgraph.Graph.{Graph}

pub record Seed : Type 0 where
  pub id : Text
  pub background : ℤ
  pub body : ℤ
  pub accessory : ℤ
  pub head : ℤ
  pub glasses : ℤ

pub record Noun : Type 0 where
  pub id : Text
  pub seed : Option Text
  pub owner : Option Text

pub record Bid : Type 0 where
  pub id : Text
  pub noun : Text
  pub amount : ℤ
  pub bidder : Text
  pub block_number : ℤ
  pub tx_index : ℤ
  pub auction : Text
  pub block_timestamp : ℤ

pub record Auction : Type 0 where
  pub id : Text
  pub noun : Text
  pub amount : ℤ
  pub start_time : ℤ
  pub end_time : ℤ
  pub bidder : Option Text
  pub settled : Bool

pub record Account : Type 0 where
  pub id : Text
  pub delegate : Option Text
  pub token_balance_raw : ℤ
  pub token_balance : ℤ
  pub total_tokens_held_raw : ℤ
  pub total_tokens_held : ℤ
  pub nouns : List Text

-- The amount of holders is an `i32`, kept as its bit pattern below 2 ^ 32.
pub record Delegate : Type 0 where
  pub id : Text
  pub delegated_votes_raw : ℤ
  pub delegated_votes : ℤ
  pub token_holders_represented_amount : ℕ
  pub nouns_represented : List Text

pub data Status : Type 0 where
  pending active cancelled vetoed queued executed : Status

pub record Proposal : Type 0 where
  pub id : Text
  pub proposer : Option Text
  pub targets : List Text
  pub values : List ℤ
  pub signatures : List Text
  pub calldatas : List Text
  pub created_timestamp : Option ℤ
  pub created_block : Option ℤ
  pub created_transaction_hash : Option Text
  pub start_block : Option ℤ
  pub end_block : Option ℤ
  pub proposal_threshold : Option ℤ
  pub quorum_votes : Option ℤ
  pub for_votes : Option ℤ
  pub against_votes : Option ℤ
  pub abstain_votes : Option ℤ
  pub description : Option Text
  pub status : Option Status
  pub execution_eta : Option ℤ

pub record Vote : Type 0 where
  pub id : Text
  pub support : Option Bool
  pub support_detailed : Option ℕ
  pub votes_raw : Option ℤ
  pub votes : Option ℤ
  pub reason : Option Text
  pub voter : Option Text
  pub nouns : List Text
  pub proposal : Option Text

pub record Governance : Type 0 where
  pub proposals : ℤ
  pub current_token_holders : ℤ
  pub current_delegates : ℤ
  pub total_token_holders : ℤ
  pub total_delegates : ℤ
  pub delegated_votes_raw : ℤ
  pub delegated_votes : ℤ
  pub proposals_queued : ℤ

-- The calls of `log.error`, with what they report.
pub data LogEntry : Type 0 where
  noun_not_found_on_created : Text → LogEntry
  noun_not_found_on_auction : Text → LogEntry
  auction_not_found_on_bid : Text → LogEntry
  auction_not_found_on_extended : Text → LogEntry
  auction_not_found_on_settled : Text → LogEntry
  delegate_not_found_on_proposal : Text → LogEntry
  delegate_not_found_on_vote : Text → LogEntry
  negative_balance : Text → ℤ → LogEntry

pub record Store (g : Graph) : Type 0 where
  pub seeds : g.Table Seed
  pub nouns : g.Table Noun
  pub bids : g.Table Bid
  pub auctions : g.Table Auction
  pub accounts : g.Table Account
  pub delegates : g.Table Delegate
  pub proposals : g.Table Proposal
  pub votes : g.Table Vote
  pub governances : g.Table Governance
  pub log : List LogEntry
