-- ===== src/Webapp/Bidding.antt =====
-- Bids that a page places (packages/nouns-webapp/src/components/Bid/index.tsx). Amounts are in wei; their
-- texts, in ether, are those of the ethers and bignumber.js libraries, which are not part of the repository.
pub mod Laws
use sznouns.Prelude.{
  ℕ, zero, suc, ◌+◌, ◌-◌, ◌*◌, ◌/◌, ◌^◌, ◌≡◌, Bool, true, false, ◌&&◌, Option, none, some, List, [],
  ◌∷◌, ltb, ◌==◌, if◌then◌else◌, length, Text, codes,
}
use sznouns.Prelude.Int.{ℤ, pos, ltb_ℤ}
use sznouns.Webapp.Auction.{Auction}
use sznouns.Webapp.Logs.Updater.{split}

abbrev pub cent : ℕ
cent = 10 ^ 16

-- The first number that `BigNumber.toString` writes with an exponent.
abbrev pub exponent_at : ℕ
exponent_at = 10 ^ 21

-- Up to the next hundredth of an ether.
abbrev pub ceil_to_cents : ℕ → ℕ
ceil_to_cents wei = (wei + (cent - 1)) / cent * cent

pub record EtherTexts : Type 0 where
  -- `utils.formatEther`, exact.
  pub format_ether : ℕ → Text
  -- `utils.parseEther`, which reads negative amounts too; an invalid text is an exception.
  pub parse_ether : Text → Option ℤ
  -- `new BigNumber(text).toFixed(2, BigNumber.ROUND_CEIL)`
  pub to_fixed_2_ceil : Text → Text
  pub parse_fixed_format :
      (wei : ℕ) → parse_ether (to_fixed_2_ceil (format_ether wei)) ≡ some (pos (ceil_to_cents wei))
  pub parse_cent : parse_ether (codes "0.01") ≡ some (pos cent)
  pub parse_empty : parse_ether [] ≡ none

-- `ROUND_UP` of `current * (percentage / 100 + 1)`.
unfoldable pub compute_minimum_next_bid : ℕ → Option ℕ → ℕ
compute_minimum_next_bid current_bid none = 0
compute_minimum_next_bid current_bid (some percentage) =
    (current_bid * (percentage + 100) + 99) / 100

-- The part after the first point, if there is one.
abbrev pub decimals_of : List Text → Option Text
decimals_of (whole ∷ decimals ∷ parts) = some decimals
decimals_of _ = none

abbrev pub has_more_than_two : Option Text → Bool
has_more_than_two none = false
has_more_than_two (some decimals) = ltb 2 (length decimals)

-- The state of the input after a change of its text.
unfoldable pub bid_input_handler : Text → Text → Text
bid_input_handler input bid_input =
    if has_more_than_two (decimals_of (split 46 input)) then bid_input else input

-- Nothing; a message with the input set to this text; a bid of this value on this noun.
pub data BidStep : Type 0 where
  ignored : BidStep
  insufficient : Text → BidStep
  placed : ℕ → ℤ → BidStep

module _ (e : EtherTexts) where
  open e use {format_ether, parse_ether, to_fixed_2_ceil}

  -- From 10 ^ 21 on, bignumber.js writes an exponent, which ethers does not read: `none`.
  unfoldable pub min_bid_eth : ℕ → Option Text
  min_bid_eth min_bid =
      if min_bid == 0
      then some (codes "0.01")
      else if ltb min_bid exponent_at
      then some (to_fixed_2_ceil (format_ether min_bid))
      else none

  -- No text is 0.
  abbrev pub current_bid : Text → Option ℤ
  current_bid [] = some (pos 0)
  current_bid (c ∷ t) = parse_ether (c ∷ t)

  abbrev pub told_minimum : Option Text → Option BidStep
  told_minimum none = none
  told_minimum (some text) = some (insufficient text)

  abbrev pub check_bid : Auction → ℕ → Option ℤ → Option BidStep
  check_bid auction min_bid none = none
  check_bid auction min_bid (some value) =
      if ltb_ℤ value (pos min_bid)
      then told_minimum (min_bid_eth min_bid)
      else some (placed auction.noun_id value)

  -- `none` is an exception, at a text that is no amount, or a minimum that has no text.
  unfoldable pub place_bid_handler : Option Auction → Text → Option ℕ → Option BidStep
  place_bid_handler none input percentage = some ignored
  place_bid_handler (some auction) [] percentage = some ignored
  place_bid_handler (some auction) (c ∷ t) percentage =
      check_bid auction (compute_minimum_next_bid auction.amount percentage) (current_bid (c ∷ t))
