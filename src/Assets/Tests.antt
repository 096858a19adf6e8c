-- ===== src/Assets/Tests.antt =====
-- Big numbers as the models of packages/nouns-assets/src/utils.ts take them, with runs.
use sznouns.Prelude.{
  ℕ, zero, suc, ◌+◌, ◌-◌, ◌*◌, ◌/◌, ◌%◌, ◌^◌, ◌≤◌, ◌<◌, ◌≡◌, refl, sym, subst, ◌∙◌, Bool, true,
  false, ◌&&◌, inl, inr, Option, none, some, [], ◌∷◌, ◌++◌, arith, All, All-append, length,
  length-append, drop, Text, codes, if◌then◌else◌, ltb, ltb→lt, ltb→le, Bool-cases, starts_with,
}
use sznouns.Sdk.Hex.{digit_value, hex_digit, hex_byte}
use sznouns.Assets.Numbers.{BigNumbers, IsHexOf, IsDigit, digit, hex_value, hex_value-append}
use sznouns.Assets.{ImageData, EncodedPart, get_noun_seed_from_hash, generate_seed}
use sznouns.Assets.Seeds.{get_noun_seed_from_hash-eq-generate_seed}
use native.Mathlib.Nat.{pow-suc}

bytes_of : ℕ → ℕ → Text
bytes_of zero n = hex_byte n
bytes_of (suc fuel) n = elim (ltb n 256) [
  | true ↦ hex_byte n
  | false ↦ bytes_of fuel (n / 256) ++ hex_byte (n % 256)
]

digit_value-hex_digit : (d : ℕ) → d < 16 → digit_value (hex_digit d) ≡ some d
unfolding digit_value
digit_value-hex_digit d lt = ground arith

digit-hex_digit : (d : ℕ) → d < 16 → digit (hex_digit d) ≡ d
unfolding digit
digit-hex_digit d lt = rw (digit_value-hex_digit d lt, digit) refl

hex_digit-IsDigit : (d : ℕ) → d < 16 → IsDigit (hex_digit d)
hex_digit-IsDigit d lt = (d, digit_value-hex_digit d lt, lt)

hex_byte-IsHexOf : (n : ℕ) → n < 256 → IsHexOf n (hex_byte n)
unfolding hex_value
hex_byte-IsHexOf n lt = record {
  digits =
      (hex_digit-IsDigit (n / 16) (omega arith), (hex_digit-IsDigit (n % 16) (omega arith), tt));
  value =
      rw (digit-hex_digit (n / 16) (omega arith), digit-hex_digit (n % 16) (omega arith))
        (omega arith);
  even = (1, refl);
  minimal = inl refl;
}

append_byte-IsHexOf :
    (m n : ℕ) (s t : Text)
    → IsHexOf m s
    → 0 < m
    → IsHexOf n t
    → n < 256
    → length t ≡ 2
    → IsHexOf (m * 256 + n) (s ++ t)
append_byte-IsHexOf m n s t h pos k lt two = record {
  digits = All-append IsDigit s t h.digits k.digits;
  value = hex_value-append s t ∙ rw (h.value, k.value, two) refl;
  even = (h.even.0 + 1, omega (arith, length-append s t, h.even.1));
  minimal = elim h.minimal [
    | inl short ↦
        inr (omega (arith, length-append s t), rw (length-append s t, short, two) (omega arith))
    | inr (more, least) ↦
        let e : length (s ++ t) - 2 ≡ suc (suc (length s - 2)) = omega (arith, length-append s t) in
        inr (
          omega (arith, length-append s t),
          rw (e, pow-suc 16 (suc (length s - 2)), pow-suc 16 (length s - 2)) (omega arith),
        )
  ];
}

length-hex_byte : (n : ℕ) → length (hex_byte n) ≡ 2
length-hex_byte n = refl

bytes_of-IsHexOf : (fuel n : ℕ) → n ≤ fuel → IsHexOf n (bytes_of fuel n)
unfolding bytes_of
bytes_of-IsHexOf zero n le = hex_byte-IsHexOf n (omega arith)
bytes_of-IsHexOf (suc fuel) n le = elim (Bool-cases (ltb n 256)) [
  | inl small ↦ rw (small, bytes_of) (hex_byte-IsHexOf n (ltb→lt n 256 small))
  | inr large ↦
      let big = ltb→le n 256 large in
      let e : n ≡ n / 256 * 256 + n % 256 = omega arith in
      rw (large, bytes_of)
        (subst (λ k. IsHexOf k (bytes_of fuel (n / 256) ++ hex_byte (n % 256))) (sym e)
          (append_byte-IsHexOf (n / 256) (n % 256) (bytes_of fuel (n / 256)) (hex_byte (n % 256))
            (bytes_of-IsHexOf fuel (n / 256) (omega arith)) (omega arith)
            (hex_byte-IsHexOf (n % 256) (omega arith)) (omega arith) refl))
]

all_digits : Text → Bool
all_digits [] = true
all_digits (c ∷ t) = elim (digit_value c) [ none ↦ false | some d ↦ all_digits t ]

all_digits_lem : (t : Text) → All IsDigit t → all_digits t ≡ true
unfolding all_digits
all_digits_lem [] h = refl
all_digits_lem (c ∷ t) ((d, e, lt), h) = rw (e, all_digits) (all_digits_lem t h)

abbrev parse : Text → Option ℕ
parse t =
    if starts_with (codes "0x") t && (ltb 2 (length t) && all_digits (drop 2 t))
    then some (hex_value (drop 2 t))
    else none

parse_digits :
    (t : Text) → All IsDigit t → 0 < length t → parse (codes "0x" ++ t) ≡ some (hex_value t)
unfolding starts_with
parse_digits t h pos = rw (all_digits_lem t h) (ground arith)

parse_prefix : (t : Text) → parse (codes "0x0x" ++ t) ≡ none
unfolding starts_with all_digits digit_value
parse_prefix t = ground arith

abbrev big_numbers : BigNumbers
big_numbers = record {
  to_hex_string = λ n. codes "0x" ++ bytes_of n n;
  hex_digits = λ n. (bytes_of n n, refl, bytes_of-IsHexOf n n (omega arith));
  from_text = parse;
  from_digits = parse_digits;
  from_prefix = parse_prefix;
}

abbrev part : EncodedPart
part = record { filename = codes "part"; text = codes "0x00" }

abbrev images : ImageData
images = record {
  bgcolors = codes "d5d7e1" ∷ codes "e1d7d5" ∷ [];
  bodies = part ∷ part ∷ part ∷ [];
  accessories = part ∷ part ∷ [];
  heads = part ∷ part ∷ part ∷ part ∷ part ∷ [];
  glasses = part ∷ part ∷ part ∷ [];
}

abbrev hash : ℕ
hash = 0x00000abcdef0123456789abcdef0123456789abcdef0123456789abcdef01235

get_noun_seed_from_hash-eq-generate_seed_example :
    get_noun_seed_from_hash big_numbers images (2 ^ 240 + hash)
    ≡ (if ltb (2 ^ 240 + hash) (2 ^ 232) then none else generate_seed images (2 ^ 240 + hash))
get_noun_seed_from_hash-eq-generate_seed_example =
    get_noun_seed_from_hash-eq-generate_seed big_numbers images (2 ^ 240 + hash)

seed_drawn :
    generate_seed images (2 ^ 240 + hash)
    ≡ some (record { background = 1; body = 0; accessory = 0; head = 0; glasses = 1 })
unfolding generate_seed
seed_drawn = refl
