-- ===== src/Webapp/Tests.antt =====
-- Runs of the pages' state (packages/nouns-webapp/src/state/slices).
mod Pages
mod Fetching
mod Chains
mod Numbers
use sznouns.Prelude.{
  ℕ, ◌≤◌, ◌≡◌, refl, true, false, none, some, List, [], ◌∷◌, arith, Text, text_eq, codes,
}
use sznouns.Prelude.Int.{pos}
use sznouns.Webapp.Auction.{
  Auction, BidEvent, AuctionState, initial_state, contains_bid, append_bid,
}
use sznouns.Webapp.Auction.Bids.{
  Action, active, bid, run, all_new, Among, IsBest, run-all_new, append_bid-IsBest,
}
use sznouns.Webapp.Display.{prev, next, last_up, moves, shown, moves-shown}
use sznouns.Webapp.Logs.{EventFilter, FetchState, LogsState, failed, filter_to_key, run as run_logs}
use sznouns.Webapp.Logs.Results.{HasSince, run-HasSince}

abbrev bid_of : Text → ℕ → BidEvent
bid_of hash value = record {
  noun_id = 7;
  sender = codes "s";
  value = value;
  extended = false;
  transaction_hash = hash;
  timestamp = 0;
}

-- The second bid comes twice.
abbrev repeated : List Action
repeated =
    active (record { noun_id = 7; start_time = 1; end_time = 9; settled = false })
    ∷ bid (bid_of (codes "a") 3)
    ∷ bid (bid_of (codes "b") 5)
    ∷ bid (bid_of (codes "b") 5)
    ∷ []

run-all_new_example : all_new (run repeated initial_state).bids ≡ true
run-all_new_example = run-all_new repeated

abbrev seventh : Auction
seventh = record {
  amount = 5;
  bidder = codes "s";
  start_time = 1;
  end_time = 9;
  noun_id = 7;
  settled = false;
}

-- The bid of 4 arrives after that of 5.
abbrev late : AuctionState
late = record { active_auction = some seventh; bids = bid_of (codes "b") 5 ∷ [] }

append_bid-IsBest_example :
    (best : BidEvent) × Among best (bid_of (codes "a") 4 ∷ bid_of (codes "b") 5 ∷ [])
    × IsBest best (bid_of (codes "a") 4 ∷ bid_of (codes "b") 5 ∷ [])
    × (append_bid (bid_of (codes "a") 4) late ≡ record {
      active_auction = some (record seventh { amount = best.value; bidder = best.sender });
      bids = bid_of (codes "a") 4 ∷ bid_of (codes "b") 5 ∷ [];
    })
unfolding contains_bid text_eq
append_bid-IsBest_example = append_bid-IsBest (bid_of (codes "a") 4) late seventh refl refl refl

moves-shown_example :
    (last n : ℕ) × (n ≤ last)
    × (moves (prev ∷ next ∷ next ∷ last_up 1 ∷ next ∷ []) (shown 5 5) ≡ shown last n)
moves-shown_example = moves-shown (prev ∷ next ∷ next ∷ last_up 1 ∷ next ∷ []) 5 5 (omega arith)

abbrev anything : EventFilter
anything = record { address = none; topics = none; from_block = none }

abbrev at_ten : FetchState
at_ten = record {
  listeners = pos 1;
  fetching_block_number = none;
  results = some (record { block_number = 10; logs = some [] });
}

abbrev listened : LogsState
listened key = some at_ten

-- A failure at block 9 arrives late.
run-HasSince_example :
    HasSince 10 (run_logs (failed anything 9 ∷ []) listened (filter_to_key anything))
run-HasSince_example =
    run-HasSince (failed anything 9 ∷ []) listened (filter_to_key anything) 10
      ((at_ten, record { block_number = 10; logs = some [] }, refl, refl, omega arith))
