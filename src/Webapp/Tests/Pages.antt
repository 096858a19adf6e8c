-- ===== src/Webapp/Tests/Pages.antt =====
-- Runs of the models of titles, shown auctions, logs and votes.
use sznouns.Prelude.{ℕ, ◌≡◌, refl, true, false, none, some, List, [], ◌∷◌, ◌++◌, arith, codes}
use mathlib.Core.List.{Perm}
use sznouns.Webapp.Auction.{Auction, BidEvent}
use sznouns.Webapp.Titles.{title_of, created_description}
use sznouns.Webapp.Titles.Created.{title_of-created_description}
use sznouns.Webapp.Shown.{
  IndexedAuction, redux_safe_past_auctions, use_on_display_auction, deserialize_bids,
}
use sznouns.Webapp.Shown.Laws.{
  IsShown, IsNewestFirst, use_on_display_auction-IsShown, deserialize_bids-sorted,
}
use sznouns.Webapp.Logs.{any_topic, one_topic, one_of, EventFilter, join, filter_to_key}
use sznouns.Webapp.Logs.Updater.{key_to_filter, Range, ranges}
use sznouns.Webapp.Logs.Ranges.{times_fetched, expected_times, ranges-times}
use sznouns.Webapp.Logs.Keys.{filter_to_key-key_to_filter, filter_to_key-no_topics}
use sznouns.Webapp.Functions.{NormalizedVote, NormalizedNoun, reduce_proposal_votes}
use sznouns.Webapp.Functions.Grouped.{all_votes_on, with_votes, reduce_proposal_votes-eq-with_votes}

title_of-created_description_example :
    title_of (some (created_description (codes "Fund it") (codes "Why\n---"))) ≡ codes "Fund it"
title_of-created_description_example =
    title_of-created_description 70 (codes "und it") (codes "Why\n---") refl (ground arith)

abbrev pub auction : ℕ → Auction
auction id = record {
  amount = 100;
  bidder = codes "0x01";
  start_time = 5;
  end_time = 9;
  noun_id = id;
  settled = true;
}

abbrev past : ℕ → IndexedAuction
past id = record {
  id = id;
  amount = 7;
  bidder = some (codes "0x02");
  start_time = 3;
  end_time = 4;
  bids = [];
}

use_on_display_auction-IsShown_example : IsShown 20 (
    use_on_display_auction
      (some 20)
      (some (auction 23))
      (redux_safe_past_auctions (past 21 ∷ past 22 ∷ [])))
use_on_display_auction-IsShown_example =
    use_on_display_auction-IsShown 20 (auction 23) (past 21 ∷ past 22 ∷ [])

abbrev bid_at : ℕ → BidEvent
bid_at time = record {
  noun_id = 3;
  sender = codes "0x01";
  value = 5;
  extended = false;
  transaction_hash = codes "0xaa";
  timestamp = time;
}

deserialize_bids-sorted_example :
    Perm
      (deserialize_bids (bid_at 5 ∷ bid_at 9 ∷ bid_at 7 ∷ []))
      (bid_at 5 ∷ bid_at 9 ∷ bid_at 7 ∷ [])
    × IsNewestFirst (deserialize_bids (bid_at 5 ∷ bid_at 9 ∷ bid_at 7 ∷ []))
deserialize_bids-sorted_example = deserialize_bids-sorted (bid_at 5 ∷ bid_at 9 ∷ bid_at 7 ∷ [])

ranges-times_example :
    (rs : List Range) × (ranges 0 2500000 ≡ some rs)
    × ((b : ℕ) → times_fetched b rs ≡ expected_times 0 2500000 b)
ranges-times_example = ranges-times 0 2500000

abbrev pub transfers : EventFilter
transfers = record {
  address = some (codes "0x9c");
  topics =
      some (one_topic (codes "0xdd") ∷ one_of (codes "0x01" ∷ codes "0x02" ∷ []) ∷ any_topic ∷ []);
  from_block = some 100;
}

filter_to_key-key_to_filter_example :
    (g : EventFilter) × (key_to_filter (filter_to_key transfers) ≡ some g)
    × (filter_to_key g ≡ filter_to_key transfers)
unfolding join
filter_to_key-key_to_filter_example =
    filter_to_key-key_to_filter transfers (one_topic (codes "0xdd"))
      (one_of (codes "0x01" ∷ codes "0x02" ∷ []) ∷ any_topic ∷ []) refl (ground arith)
      (ground arith)

abbrev everything : EventFilter
everything = record { address = some (codes "0x9c"); topics = none; from_block = some 100 }

filter_to_key-no_topics_example :
    (g : EventFilter) × (key_to_filter (filter_to_key everything) ≡ some g)
    × (filter_to_key g ≡ filter_to_key everything ++ 0 ∷ [])
filter_to_key-no_topics_example = filter_to_key-no_topics everything refl (ground arith)

abbrev vote_on : ℕ → NormalizedVote
vote_on id = record { proposal_id = id; support_detailed = 1 }

abbrev noun : ℕ → List NormalizedVote → NormalizedNoun
noun id votes = record {
  id = id;
  owner = codes "0x01";
  delegated_to = none;
  votes = votes;
  seed = record { background = 0; body = 1; accessory = 2; head = 3; glasses = 4 };
}

abbrev voters : List NormalizedNoun
voters = noun 1 (vote_on 7 ∷ vote_on 8 ∷ []) ∷ noun 2 (vote_on 7 ∷ []) ∷ []

reduce_proposal_votes-eq-with_votes_example :
    reduce_proposal_votes voters 7 ≡ with_votes none (all_votes_on 7 voters)
reduce_proposal_votes-eq-with_votes_example = reduce_proposal_votes-eq-with_votes voters 7
