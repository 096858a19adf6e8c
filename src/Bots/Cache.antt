-- ===== src/Bots/Cache.antt =====
-- The bot's cache (packages/nouns-bots/src/cache.ts). `none` as a number is NaN.
pub mod Laws
use sznouns.Prelude.{ℕ, Bool, true, false, Option, none, some, List, [], ◌∷◌, ◌++◌, Text, codes}
use sznouns.Bots.{Redis, Proposal}
use sznouns.Prelude.Decimal.{to_decimal, number}

abbrev pub auction_cache_key : Text
auction_cache_key = codes "NOUNS_AUCTION_CACHE"

abbrev pub bid_cache_key : Text
bid_cache_key = codes "NOUNS_BID_CACHE"

abbrev pub reply_tweet_id_key : Text
reply_tweet_id_key = codes "NOUNS_REPLY_TWEET_ID"

abbrev pub auction_ending_soon_cache_key : Text
auction_ending_soon_cache_key = codes "NOUNS_AUCTION_ENDING_SOON_CACHE"

abbrev pub proposal_cache_key_prefix : Text
proposal_cache_key_prefix = codes "NOUNS_PROPOSAL_"

abbrev pub proposal_expiry_warning_sent_cache_key_prefix : Text
proposal_expiry_warning_sent_cache_key_prefix = codes "NOUNS_PROPOSAL_EXPIRY_WARNING_SENT_"

-- A missing text and the empty one are 0.
abbrev pub number_or_zero : Option Text → Option ℕ
number_or_zero none = some 0
number_or_zero (some []) = some 0
number_or_zero (some (c ∷ t)) = number (c ∷ t)

abbrev pub text_or_empty : Option Text → Text
text_or_empty none = []
text_or_empty (some t) = t

unfoldable pub proposal_cache_key : ℕ → Text
proposal_cache_key id = proposal_cache_key_prefix ++ to_decimal id

unfoldable pub proposal_expiry_warning_sent_cache_key : ℕ → Text
proposal_expiry_warning_sent_cache_key id =
    proposal_expiry_warning_sent_cache_key_prefix ++ to_decimal id

module _ (r : Redis) where
  open r use {Store, get, set, exists, stringify, parse}

  unfoldable pub update_auction_cache : ℕ → Store → Store
  update_auction_cache id s = set auction_cache_key (to_decimal id) s

  unfoldable pub get_bid_cache : Store → Text
  get_bid_cache s = text_or_empty (get bid_cache_key s)

  unfoldable pub update_bid_cache : Text → Store → Store
  update_bid_cache id s = set bid_cache_key id s

  unfoldable pub get_auction_reply_tweet_id : Store → Option Text
  get_auction_reply_tweet_id s = get reply_tweet_id_key s

  unfoldable pub update_auction_reply_tweet_id : Text → Store → Store
  update_auction_reply_tweet_id id s = set reply_tweet_id_key id s

  unfoldable pub get_auction_ending_soon_cache : Store → Option ℕ
  get_auction_ending_soon_cache s = number_or_zero (get auction_ending_soon_cache_key s)

  unfoldable pub update_auction_ending_soon_cache : ℕ → Store → Store
  update_auction_ending_soon_cache id s = set auction_ending_soon_cache_key (to_decimal id) s

  unfoldable pub get_auction_cache : Store → Option ℕ
  get_auction_cache s = number_or_zero (get auction_cache_key s)

  unfoldable pub update_proposal_cache : Proposal → Store → Store
  update_proposal_cache p s = set (proposal_cache_key p.id) (stringify p) s

  -- A missing text and the empty one are null, and so is a text that is no JSON, which the bot does
  -- not store.
  abbrev pub parse_or_null : Option Text → Option Proposal
  parse_or_null none = none
  parse_or_null (some []) = none
  parse_or_null (some (c ∷ t)) = parse (c ∷ t)

  unfoldable pub get_proposal_cache : ℕ → Store → Option Proposal
  get_proposal_cache id s = parse_or_null (get (proposal_cache_key id) s)

  unfoldable pub set_proposal_expiry_warning_sent : ℕ → Store → Store
  set_proposal_expiry_warning_sent id s =
      set (proposal_expiry_warning_sent_cache_key id) (codes "1") s

  unfoldable pub has_warned_of_expiry : ℕ → Store → Bool
  has_warned_of_expiry id s = exists (proposal_expiry_warning_sent_cache_key id) s
