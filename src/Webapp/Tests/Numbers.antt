-- ===== src/Webapp/Tests/Numbers.antt =====
-- Runs with amounts and floating-point numbers (packages/nouns-webapp/src/components/Bid/index.tsx,
-- utils/pseudoRandomPredictableShuffle.ts).
use sznouns.Prelude.{
  ◌/◌, ◌-◌, text_eq, ℕ, ◌*◌, ◌<◌, ◌≡◌, refl, Option, none, some, List, [], ◌∷◌, arith,
  if◌then◌else◌, Text, codes,
}
use mathlib.Core.List.{Perm}
use sznouns.Prelude.Int.{ℤ, pos}
use native.Mathlib.Nat.{mul-lt-mul_of_pos_left}
use sznouns.Webapp.Shuffle.{
  Floats, pseudo_random_predictable_shuffle, pseudo_random_predictable_shuffle-perm,
}
use sznouns.Webapp.Bidding.{EtherTexts, cent, ceil_to_cents, place_bid_handler}
use sznouns.Webapp.Bidding.Laws.{IsRight, place_bid_handler-IsRight}
use sznouns.Webapp.Tests.Pages.{auction}

-- Amounts as texts of one character, but for a hundredth of an ether.
abbrev format : ℕ → Text
format wei = wei ∷ []

abbrev parse : Text → Option ℤ
parse [] = none
parse (wei ∷ []) = some (pos wei)
parse (a ∷ b ∷ t) = if text_eq (a ∷ b ∷ t) (codes "0.01") then some (pos cent) else none

abbrev fixed : Text → Text
fixed (wei ∷ []) = ceil_to_cents wei ∷ []
fixed t = t

parsed_cent : parse (codes "0.01") ≡ some (pos cent)
unfolding text_eq
parsed_cent = refl

abbrev amounts : EtherTexts
amounts = record {
  format_ether = format;
  parse_ether = parse;
  to_fixed_2_ceil = fixed;
  parse_fixed_format = λ wei. refl;
  parse_cent = parsed_cent;
  parse_empty = refl;
}

-- A bid of 104 wei, where 105 are required.
place_bid_handler-IsRight_example :
    IsRight amounts
      (auction 23)
      5
      50
      (104 ∷ [])
      (place_bid_handler amounts (some (auction 23)) (104 ∷ []) (some 5))
place_bid_handler-IsRight_example = place_bid_handler-IsRight amounts (auction 23) 5 50 (104 ∷ [])

-- Numbers in thousandths, with a sine that is none.
below_one : (x : ℕ) → x - x / 1000 * 1000 < 1000
below_one x = omega arith

thousandths_floor : (n r : ℕ) → 0 < n → r < 1000 → n * 1000 * r / 1000 / 1000 * 1000 / 1000 < n
thousandths_floor n r positive h =
    let e : n * 1000 * r ≡ n * r * 1000 = grind arith in
    let lt : n * r < n * 1000 = mul-lt-mul_of_pos_left h positive in omega (arith, e, lt)

abbrev thousandths : Floats
thousandths = record {
  Float = ℕ;
  of_nat = λ n. n * 1000;
  sin = λ x. x / 7;
  times = λ x y. x * y / 1000;
  minus = λ x y. x - y;
  floor = λ x. x / 1000 * 1000;
  position = λ x. x / 1000;
  IsFraction = λ x. x < 1000;
  minus_floor = λ n. below_one (n * 1000 / 7 * 10000000 / 1000);
  floor_times = λ n r. thousandths_floor n r;
}

pseudo_random_predictable_shuffle-perm_example :
    (output : List ℕ) × (pseudo_random_predictable_shuffle thousandths (4 ∷ 5 ∷ 6 ∷ []) 0
      ≡ some output)
    × Perm output (4 ∷ 5 ∷ 6 ∷ [])
pseudo_random_predictable_shuffle-perm_example =
    pseudo_random_predictable_shuffle-perm thousandths (4 ∷ 5 ∷ 6 ∷ []) 0
