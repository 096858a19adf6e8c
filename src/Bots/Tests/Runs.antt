-- ===== src/Bots/Tests/Runs.antt =====
-- The bot's theorems at runs of its loops.
use sznouns.Prelude.{
  ℕ, ◌≤◌, ◌≡◌, refl, true, false, Option, none, some, List, [], ◌∷◌, arith, Text, text_eq, codes,
  if◌then◌else◌,
}
use sznouns.Bots.{AuctionBids, Bid, Vote, Proposal, ProposalStatus, active, queued, Notice}
use sznouns.Bots.Cache.{
  get_auction_ending_soon_cache, get_bid_cache, get_proposal_cache, update_proposal_cache,
}
use sznouns.Bots.Cache.Laws
use sznouns.Bots.Messages.{Services}
use sznouns.Bots.Handlers.{auction_lifecycle_handlers, discord_accepts}
use sznouns.Bots.Ticks.{Env, tell, process_auction_ticks}
use sznouns.Bots.Ticks.Orderly.{auctions_of, endings_of, bids_of, latest, IsDescending, IsChanging}
use sznouns.Bots.Ticks.Announced.{
  start, highest, process_auction_ticks-once, process_auction_ticks-latest,
}
use sznouns.Bots.Proposals.{ids_of, is_at_risk_of_expiry, includes}
use sznouns.Bots.Governance.{
  process_governance_tick, process_governance_ticks, process_proposal, tell_changes,
}
use sznouns.Bots.Governance.Steps.{Accepts, AcceptsAll, count}
use sznouns.Bots.Governance.Warnings.{is_warning_of, process_governance_ticks-warned_once}
use sznouns.Bots.Governance.Again.{process_governance_tick-again}
use sznouns.Bots.Governance.Votes.{is_vote_of, IsLater, news, steps_of, last_of}
use sznouns.Bots.Governance.Told.{process_governance_ticks-votes}
use sznouns.Bots.Governance.Rejections.{process_proposal-rejected}
use sznouns.Bots.Tests.Codec.{texts}

-- Services that answer, the tweets with a fixed id.
abbrev services : Services
services = record {
  noun_png = λ id. some (some (codes "png"));
  lookup_address = λ address. some none;
  format_ether = λ amount. amount;
  upload_media = λ png. some (codes "media");
  tweet = λ text media_id. some (codes "t1");
  reply = λ text tweet_id. some (codes "t2");
  send = λ client title description png. true;
}

abbrev env_at : ℕ → Env texts
env_at now = record {
  now = now;
  counter = λ name. true;
  handlers = auction_lifecycle_handlers services texts true true;
}

abbrev empty_store : Text → Option Text
empty_store key = none

abbrev bid : Text → Bid
bid id = record {
  id = id;
  amount = codes "7";
  bidder = codes "0x8ba1f109551bD432803012645Ac136ddd64DBA72";
}

abbrev auction : ℕ → ℕ → List Bid → AuctionBids
auction id end_time bids = record { id = id; end_time = end_time; bids = bids }

-- A first bid, a second one near the end, and the next auction.
abbrev ticks : List (Env texts × AuctionBids)
ticks =
    (env_at 1000, auction 7 90000 (bid (codes "0xb1") ∷ []))
    ∷ (env_at 89000, auction 7 90000 (bid (codes "0xb2") ∷ []))
    ∷ (env_at 90100, auction 8 176400 [])
    ∷ []

process_auction_ticks-once_example :
    let w = process_auction_ticks texts ticks (start texts (auction 6 900 []) empty_store) in
    IsDescending 6 (auctions_of w.told)
    × IsDescending 0 (endings_of w.told)
    × IsChanging (get_bid_cache texts empty_store) (bids_of w.told)
unfolding get_auction_ending_soon_cache
process_auction_ticks-once_example =
    process_auction_ticks-once texts ticks (auction 6 900 []) empty_store 0 refl

process_auction_ticks-latest_example :
    latest 6 (
      auctions_of
        (process_auction_ticks texts ticks (start texts (auction 6 900 []) empty_store)).told)
    ≡ highest 6 ticks
unfolding get_auction_ending_soon_cache
process_auction_ticks-latest_example =
    process_auction_ticks-latest texts ticks (auction 6 900 []) empty_store 0 refl
      (refl, (refl, (refl, tt)))

-- Governance goes to Discord alone.
abbrev discord_at : ℕ → Env texts
discord_at now = record {
  now = now;
  counter = λ name. true;
  handlers = auction_lifecycle_handlers services texts false true;
}

discord_at-Accepts : (now : ℕ) → Accepts texts (discord_at now)
unfolding tell auction_lifecycle_handlers discord_accepts
discord_at-Accepts now (Notice.new_auction id) s = refl
discord_at-Accepts now (Notice.new_bid id b) s = refl
discord_at-Accepts now (Notice.auction_ending_soon id) s = refl
discord_at-Accepts now (Notice.new_proposal p) s = refl
discord_at-Accepts now (Notice.updated_proposal_status p) s = refl
discord_at-Accepts now (Notice.proposal_at_risk_of_expiry p) s = refl
discord_at-Accepts now (Notice.governance_vote p v) s = refl

abbrev vote : Text → ℕ → Vote
vote id votes = record {
  id = id;
  voter = codes "0x8ba1f109551bD432803012645Ac136ddd64DBA72";
  votes = votes;
  support_detailed = 1;
  reason = none;
}

abbrev proposal : ProposalStatus → List Vote → Proposal
proposal status votes = record {
  id = 12;
  proposer = codes "0x01";
  description = codes "# Title";
  status = status;
  quorum_votes = 3;
  proposal_threshold = 1;
  start_block = 100;
  end_block = 200;
  execution_eta = 1000000;
  votes = votes;
}

abbrev first : Proposal
first = proposal active (vote (codes "v1") 5 ∷ [])

-- One more vote with weight, and one without.
abbrev second : Proposal
second = proposal queued (vote (codes "v1") 5 ∷ vote (codes "v2") 0 ∷ vote (codes "v3") 2 ∷ [])

abbrev weights : Text → ℕ
weights id = if text_eq id (codes "v1") then 5 else if text_eq id (codes "v3") then 2 else 0

-- Two ticks within the last two days.
abbrev governance_ticks : List (Env texts × List Proposal)
governance_ticks = (discord_at 2200000, second ∷ []) ∷ (discord_at 2200060, second ∷ []) ∷ []

governance_ticks-AcceptsAll : AcceptsAll texts governance_ticks
governance_ticks-AcceptsAll = (discord_at-Accepts 2200000, (discord_at-Accepts 2200060, tt))

abbrev cached_store : Text → Option Text
cached_store = update_proposal_cache texts first empty_store

process_governance_ticks-warned_once_example :
    count
      (is_warning_of 12)
      (process_governance_ticks texts governance_ticks
        (record { store = cached_store; told = [] })).told
    ≤ 1
process_governance_ticks-warned_once_example =
    process_governance_ticks-warned_once texts 12 governance_ticks cached_store
      governance_ticks-AcceptsAll

second-grown :
    (id : Text) → includes (ids_of first.votes) id ≡ true → includes (ids_of second.votes) id ≡ true
unfolding includes
second-grown id h = ground arith

second-IsLater : IsLater weights first second
unfolding includes text_eq
second-IsLater = record {
  grown = second-grown;
  distinct = (refl, (refl, (refl, tt)));
  weights = (refl, (refl, (refl, tt)));
}

second-IsLater_again : IsLater weights second second
unfolding includes text_eq
second-IsLater_again = record {
  grown = λ id h. h;
  distinct = (refl, (refl, (refl, tt)));
  weights = (refl, (refl, (refl, tt)));
}

abbrev last : Proposal
last = last_of 12 first (steps_of governance_ticks)

process_governance_ticks-votes_example :
    count
      (is_vote_of 12 (codes "v3"))
      (process_governance_ticks texts governance_ticks
        (record { store = cached_store; told = [] })).told
    ≡ news weights (ids_of first.votes) (ids_of last.votes) (codes "v3")
process_governance_ticks-votes_example =
    process_governance_ticks-votes texts 12 weights (codes "v3") governance_ticks cached_store first
      governance_ticks-AcceptsAll
      (Laws.get_proposal_cache-update_proposal_cache texts first 12 empty_store)
      (second-IsLater, (second-IsLater_again, tt))

calm : is_at_risk_of_expiry 2000 second ≡ false
unfolding is_at_risk_of_expiry
calm = refl

process_governance_tick-again_example :
    let w =
      process_governance_tick texts
        (discord_at 1000)
        (second ∷ [])
        (record { store = cached_store; told = [] }) in
    (process_governance_tick texts (discord_at 2000) (second ∷ []) w).told ≡ w.told
process_governance_tick-again_example =
    process_governance_tick-again texts (discord_at 1000) (discord_at 2000) (second ∷ [])
      (record { store = cached_store; told = [] }) (discord_at-Accepts 1000)
      (discord_at-Accepts 2000) (tt, tt) (calm, tt)

-- A webhook that fails.
abbrev failing_at : ℕ → Env texts
failing_at now = record {
  now = now;
  counter = λ name. true;
  handlers =
      auction_lifecycle_handlers (record services { send = λ client title description png. false })
        texts false true;
}

rejected :
    (tell_changes texts (failing_at 1000) second none (record { store = empty_store; told = [] })).1
    ≡ false
unfolding tell auction_lifecycle_handlers discord_accepts
rejected = refl

process_proposal-rejected_example :
    get_proposal_cache texts 12
      (process_proposal texts
        (failing_at 1000)
        second
        (record { store = empty_store; told = [] })).store
    ≡ get_proposal_cache texts 12 empty_store
unfolding get_proposal_cache
process_proposal-rejected_example =
    process_proposal-rejected texts (failing_at 1000) second 12
      (record { store = empty_store; told = [] }) rejected
