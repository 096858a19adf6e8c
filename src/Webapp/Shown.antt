-- ===== src/Webapp/Shown.antt =====
-- The auction and the bids that a page shows (packages/nouns-webapp/src/wrappers/onDisplayAuction.ts), with
-- the past auctions (packages/nouns-webapp/src/state/slices/pastAuctions.ts) that a query to the index gives.
pub mod Laws
use sznouns.Prelude.{
  ℕ, Bool, true, false, Option, none, some, List, [], ◌∷◌, map, ltb, ◌==◌, if◌then◌else◌, Text,
}
use sznouns.Webapp.Auction.{Auction, AuctionState, BidEvent}
use sznouns.Webapp.Founders.{is_nounder_noun, is_nouns_dao_noun, generate_empty_auction}

-- An auction and a bid in the answer of the query; the bidder is the id of an account.
pub record IndexedBid : Type 0 where
  pub id : Text
  pub amount : ℕ
  pub bidder : Text
  pub block_timestamp : ℕ

pub record IndexedAuction : Type 0 where
  pub id : ℕ
  pub amount : ℕ
  pub bidder : Option Text
  pub start_time : ℕ
  pub end_time : ℕ
  pub bids : List IndexedBid

abbrev pub text_or_empty : Option Text → Text
text_or_empty none = []
text_or_empty (some t) = t

abbrev pub redux_safe_past_bid : ℕ → IndexedBid → BidEvent
redux_safe_past_bid noun_id bid = record {
  noun_id = noun_id;
  sender = bid.bidder;
  value = bid.amount;
  extended = false;
  transaction_hash = bid.id;
  timestamp = bid.block_timestamp;
}

abbrev pub redux_safe_past_auction : IndexedAuction → AuctionState
redux_safe_past_auction auction = record {
  active_auction = some (record {
    amount = auction.amount;
    bidder = text_or_empty auction.bidder;
    start_time = auction.start_time;
    end_time = auction.end_time;
    noun_id = auction.id;
    settled = false;
  });
  bids = map (redux_safe_past_bid auction.id) auction.bids;
}

unfoldable pub redux_safe_past_auctions : List IndexedAuction → List AuctionState
redux_safe_past_auctions [] = []
redux_safe_past_auctions (auction ∷ auctions) =
    redux_safe_past_auction auction ∷ redux_safe_past_auctions auctions

abbrev pub deserialize_auction : Auction → Auction
deserialize_auction a = record a { settled = false }

abbrev pub has_noun : ℕ → Option Auction → Bool
has_noun noun_id none = false
has_noun noun_id (some a) = a.noun_id == noun_id

-- The first state with an auction of this noun.
unfoldable pub find_past : ℕ → List AuctionState → Option AuctionState
find_past noun_id [] = none
find_past noun_id (state ∷ states) =
    if has_noun noun_id state.active_auction then some state else find_past noun_id states

abbrev pub deserialize_some : Option Auction → Option Auction
deserialize_some none = none
deserialize_some (some a) = some (deserialize_auction a)

abbrev pub active_of : Option AuctionState → Option Auction
active_of none = none
active_of (some state) = state.active_auction

-- The empty auction of a noun that is not auctioned; `none` is an exception.
abbrev pub deserialize_empty : Option Auction → Option (Option Auction)
deserialize_empty none = none
deserialize_empty (some a) = some (some (deserialize_auction a))

abbrev pub show_noun : ℕ → Auction → List AuctionState → Option (Option Auction)
show_noun on_display current past =
    if on_display == current.noun_id
    then some (some (deserialize_auction current))
    else if is_nounder_noun on_display
    then deserialize_empty (generate_empty_auction on_display past)
    else if is_nouns_dao_noun on_display
    then deserialize_empty (generate_empty_auction on_display past)
    else some (deserialize_some (active_of (find_past on_display past)))

-- `none` is an exception, and `some none` is undefined.
unfoldable pub use_on_display_auction :
    Option ℕ → Option Auction → List AuctionState → Option (Option Auction)
use_on_display_auction none current past = some none
use_on_display_auction (some on_display) none past = some none
use_on_display_auction (some on_display) (some current) past = show_noun on_display current past

-- The stable sort by `b.timestamp - a.timestamp`: an element goes behind those that are newer.
abbrev pub insert_bid : BidEvent → List BidEvent → List BidEvent
insert_bid b [] = b ∷ []
insert_bid b (c ∷ bids) =
    if ltb b.timestamp c.timestamp then c ∷ insert_bid b bids else b ∷ c ∷ bids

-- Deserialization keeps the fields.
unfoldable pub deserialize_bids : List BidEvent → List BidEvent
deserialize_bids [] = []
deserialize_bids (b ∷ bids) = insert_bid b (deserialize_bids bids)

abbrev pub bids_of_state : Option AuctionState → Option (List BidEvent)
bids_of_state none = none
bids_of_state (some state) = some (deserialize_bids state.bids)

abbrev pub is_id : Option ℕ → ℕ → Bool
is_id none n = false
is_id (some m) n = m == n

unfoldable pub use_auction_bids :
    ℕ → Option ℕ → List BidEvent → List AuctionState → Option (List BidEvent)
use_auction_bids noun_id last_auction_noun_id last_auction_bids past =
    if is_id last_auction_noun_id noun_id
    then some (deserialize_bids last_auction_bids)
    else bids_of_state (find_past noun_id past)
