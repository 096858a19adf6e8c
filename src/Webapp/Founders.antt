-- ===== src/Webapp/Founders.antt =====
-- The nouns that are not auctioned (packages/nouns-webapp/src/utils/nounderNoun.ts, nounsDAONoun.ts), which
-- the pages show as empty auctions.
use sznouns.Prelude.{
  ℕ, ◌+◌, ◌%◌, Bool, false, ◌||◌, Option, none, some, List, [], ◌∷◌, ◌==◌, if◌then◌else◌,
}
use sznouns.Webapp.Auction.{Auction, AuctionState}

unfoldable pub is_nounder_noun : ℕ → Bool
is_nounder_noun noun_id = (noun_id % 20 == 0) || (noun_id == 0)

unfoldable pub is_nouns_dao_noun : ℕ → Bool
is_nouns_dao_noun noun_id = (noun_id % 20 == 1) || (noun_id == 1)

-- `emptyNounderAuction` and `emptyNounsDAOAuction`.
abbrev pub empty_auction : ℕ → Auction
empty_auction noun_id = record {
  amount = 0;
  bidder = [];
  start_time = 0;
  end_time = 0;
  noun_id = noun_id;
  settled = false;
}

-- `none` is the exception of `BigNumber.from(undefined)`, at a state without an auction.
unfoldable pub find_auction : ℕ → List AuctionState → Option (Option Auction)
find_auction id [] = some none
find_auction id (state ∷ states) =
    let rest = find_auction id states in
    elim state.active_auction [
      | none ↦ none
      | some a ↦ if a.noun_id == id then some (some a) else rest
    ]

abbrev with_start : Auction → Option Auction → Auction
with_start empty none = empty
with_start empty (some above) = record empty { start_time = above.start_time }

-- `generateEmptyNounderAuction` and `generateEmptyNounsDAOAuction`.
unfoldable pub generate_empty_auction : ℕ → List AuctionState → Option Auction
unfolding find_auction
generate_empty_auction noun_id past = elim (find_auction (noun_id + 1) past) [
  | none ↦ none
  | some above ↦ some (with_start (empty_auction noun_id) above)
]
