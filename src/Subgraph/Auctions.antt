-- ===== src/Subgraph/Auctions.antt =====
-- The handlers of the auction house's events (packages/nouns-subgraph/src/nouns-auction-house.ts).
pub mod Bids
use sznouns.Prelude.{ℕ, Bool, true, false, Option, none, some, List, [], ◌∷◌, ◌++◌, Text}
use sznouns.Prelude.Int.{ℤ, pos}
use sznouns.Subgraph.Graph.{Graph}
use sznouns.Subgraph.Entities.{
  Noun, Auction, Bid, Store, noun_not_found_on_auction, auction_not_found_on_bid,
  auction_not_found_on_extended, auction_not_found_on_settled, LogEntry,
}
use sznouns.Subgraph.Helpers.{get_or_create_account, bigint_zero}

pub record AuctionCreated : Type 0 where
  pub noun_id : ℕ
  pub start_time : ℤ
  pub end_time : ℤ

pub record AuctionBid : Type 0 where
  pub noun_id : ℕ
  pub sender : ℕ
  pub value : ℤ
  pub transaction_hash : Text
  pub transaction_index : ℤ
  pub block_number : ℤ
  pub block_timestamp : ℤ

pub record AuctionExtended : Type 0 where
  pub noun_id : ℕ
  pub end_time : ℤ

pub record AuctionSettled : Type 0 where
  pub noun_id : ℕ

module _ (g : Graph) where
  open g use {load, save, to_string, to_hex_string}

  abbrev pub log_error : LogEntry → Store g → Store g
  log_error e s = record s { log = s.log ++ e ∷ [] }

  abbrev pub save_auction : Auction → Store g → Store g
  save_auction a s = record s { auctions = save a.id a s.auctions }

  unfoldable pub handle_auction_created : AuctionCreated → Store g → Store g
  handle_auction_created e s =
      let noun_id = to_string e.noun_id in
      elim (load noun_id s.nouns) [
        | none ↦ log_error (noun_not_found_on_auction noun_id) s
        | some noun ↦
            save_auction
              (record {
                id = noun_id;
                noun = noun.id;
                amount = bigint_zero;
                start_time = e.start_time;
                end_time = e.end_time;
                bidder = none;
                settled = false;
              })
              s
      ]

  abbrev pub bid_of : AuctionBid → Text → Auction → Bid
  bid_of e bidder auction = record {
    id = e.transaction_hash;
    noun = auction.noun;
    amount = auction.amount;
    bidder = bidder;
    block_number = e.block_number;
    tx_index = e.transaction_index;
    auction = auction.id;
    block_timestamp = e.block_timestamp;
  }

  -- `handleAuctionBid` once the bidder's account is there.
  unfoldable pub place_bid : AuctionBid → Text → Store g → Store g
  place_bid e bidder s =
      let noun_id = to_string e.noun_id in
      elim (load noun_id s.auctions) [
        | none ↦ log_error (auction_not_found_on_bid noun_id) s
        | some auction ↦
            let auction' = record auction { amount = e.value; bidder = some bidder } in
            let s' = save_auction auction' s in
            record s' { bids = save e.transaction_hash (bid_of e bidder auction') s'.bids }
      ]

  unfoldable pub handle_auction_bid : AuctionBid → Store g → Store g
  unfolding get_or_create_account
  handle_auction_bid e s =
      let (s', bidder) = get_or_create_account g (to_hex_string e.sender) s in
      place_bid e bidder.id s'

  unfoldable pub handle_auction_extended : AuctionExtended → Store g → Store g
  handle_auction_extended e s =
      let noun_id = to_string e.noun_id in
      elim (load noun_id s.auctions) [
        | none ↦ log_error (auction_not_found_on_extended noun_id) s
        | some auction ↦ save_auction (record auction { end_time = e.end_time }) s
      ]

  unfoldable pub handle_auction_settled : AuctionSettled → Store g → Store g
  handle_auction_settled e s =
      let noun_id = to_string e.noun_id in
      elim (load noun_id s.auctions) [
        | none ↦ log_error (auction_not_found_on_settled noun_id) s
        | some auction ↦ save_auction (record auction { settled = true }) s
      ]
