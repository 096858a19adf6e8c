-- ===== src/Webapp/Auction.antt =====
-- The current auction and its bids (packages/nouns-webapp/src/state/slices/auction.ts). A `BigNumber` here
-- is a uint256 of a contract's event, which conversion to JSON and back keeps.
pub mod Bids
use sznouns.Prelude.{
  ℕ, Bool, true, false, not, ◌&&◌, Option, none, some, List, [], ◌∷◌, ltb, ◌==◌, if◌then◌else◌,
  Text, text_eq,
}

pub record Auction : Type 0 where
  pub amount : ℕ
  pub bidder : Text
  pub start_time : ℕ
  pub end_time : ℕ
  pub noun_id : ℕ
  pub settled : Bool

pub record BidEvent : Type 0 where
  pub noun_id : ℕ
  pub sender : Text
  pub value : ℕ
  pub extended : Bool
  pub transaction_hash : Text
  pub timestamp : ℕ

pub record AuctionCreateEvent : Type 0 where
  pub noun_id : ℕ
  pub start_time : ℕ
  pub end_time : ℕ
  pub settled : Bool

pub record AuctionExtendedEvent : Type 0 where
  pub noun_id : ℕ
  pub end_time : ℕ

pub record AuctionSettledEvent : Type 0 where
  pub noun_id : ℕ
  pub winner : Text
  pub amount : ℕ

pub record AuctionState : Type 0 where
  pub active_auction : Option Auction
  pub bids : List BidEvent

abbrev pub initial_state : AuctionState
initial_state = record { active_auction = none; bids = [] }

abbrev pub redux_safe_new_auction : AuctionCreateEvent → Auction
redux_safe_new_auction e = record {
  amount = 0;
  bidder = [];
  start_time = e.start_time;
  end_time = e.end_time;
  noun_id = e.noun_id;
  settled = false;
}

-- The reduction of the bids, from the first one on.
unfoldable pub max_bid : BidEvent → List BidEvent → BidEvent
max_bid prev [] = prev
max_bid prev (current ∷ bids) =
    max_bid (if ltb current.value prev.value then prev else current) bids

unfoldable pub contains_bid : List BidEvent → BidEvent → Bool
contains_bid [] e = false
contains_bid (bid ∷ bids) e =
    if text_eq bid.transaction_hash e.transaction_hash then true else contains_bid bids e

abbrev pub is_active : Option Auction → ℕ → Bool
is_active none noun_id = false
is_active (some a) noun_id = a.noun_id == noun_id

unfoldable pub set_active_auction : AuctionCreateEvent → AuctionState → AuctionState
set_active_auction e state = record { active_auction = some (redux_safe_new_auction e); bids = [] }

unfoldable pub set_full_auction : Auction → AuctionState → AuctionState
set_full_auction a state = record state { active_auction = some a }

-- The active auction changes if it is the one of the event.
abbrev pub change_active : ℕ → (Auction → Auction) → AuctionState → AuctionState
change_active noun_id f state = elim state.active_auction [
  | none ↦ state
  | some a ↦ if a.noun_id == noun_id then record state { active_auction = some (f a) } else state
]

-- A bid in front of the others, and the best of all in the auction.
abbrev pub add_bid : BidEvent → AuctionState → AuctionState
add_bid e state =
    let best = max_bid e state.bids in
    change_active e.noun_id (λ a. record a { amount = best.value; bidder = best.sender })
      (record state { bids = e ∷ state.bids })

unfoldable pub append_bid : BidEvent → AuctionState → AuctionState
append_bid e state =
    if not (is_active state.active_auction e.noun_id)
    then state
    else if contains_bid state.bids e
    then state
    else add_bid e state

unfoldable pub set_auction_settled : AuctionSettledEvent → AuctionState → AuctionState
set_auction_settled e state =
    change_active e.noun_id (λ a. record a { settled = true; bidder = e.winner; amount = e.amount })
      state

unfoldable pub set_auction_extended : AuctionExtendedEvent → AuctionState → AuctionState
set_auction_extended e state =
    change_active e.noun_id (λ a. record a { end_time = e.end_time }) state
