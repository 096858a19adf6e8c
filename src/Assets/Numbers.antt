-- ===== src/Assets/Numbers.antt =====
-- What packages/nouns-assets/src/utils.ts uses of the ethers library's big numbers, which is not part of
-- the repository: texts of hexadecimal digits.
use sznouns.Prelude.{
  ℕ, zero, suc, ◌+◌, ◌-◌, ◌*◌, ◌%◌, ◌^◌, ◌≤◌, ◌<◌, ◌≡◌, refl, sym, ap, ◌∙◌, ◌⊎◌, Option, none, some,
  [], ◌∷◌, ◌++◌, arith, All, length, take, drop, Text, codes, length-append,
}
use native.Mathlib.Nat.{pow-suc, pow-zero, zero-add, mul-add-mod_self_right, mod-eq_of_lt}
use sznouns.Sdk.Hex.{digit_value}

-- A digit, with its value.
abbrev pub IsDigit : ℕ → Type 0
IsDigit c = (d : ℕ) × (digit_value c ≡ some d) × (d < 16)

unfoldable pub digit : ℕ → ℕ
digit c = elim (digit_value c) [ none ↦ 0 | some d ↦ d ]

-- The number that digits stand for.
unfoldable pub hex_value : Text → ℕ
hex_value [] = 0
hex_value (c ∷ t) = digit c * 16 ^ length t + hex_value t

-- Whole bytes, and no zero byte in front but for zero itself.
pub record IsHexOf (n : ℕ) (t : Text) : Type 0 where
  pub digits : All IsDigit t
  pub value : hex_value t ≡ n
  pub even : (k : ℕ) × (length t ≡ k + k)
  pub minimal : (length t ≡ 2) ⊎ ((2 < length t) × (16 ^ (length t - 2) ≤ n))

pub record BigNumbers : Type 0 where
  -- `n.toHexString()`
  pub to_hex_string : ℕ → Text
  pub hex_digits : (n : ℕ) → (t : Text) × (to_hex_string n ≡ codes "0x" ++ t) × IsHexOf n t
  -- `BigNumber.from(text)`; an invalid text is an exception.
  pub from_text : Text → Option ℕ
  pub from_digits :
      (t : Text) → All IsDigit t → 0 < length t → from_text (codes "0x" ++ t) ≡ some (hex_value t)
  pub from_prefix : (t : Text) → from_text (codes "0x0x" ++ t) ≡ none

pow_add : (b m n : ℕ) → b ^ (m + n) ≡ b ^ m * b ^ n
pow_add b zero n = rw (zero-add n, pow-zero b) (omega arith)
pow_add b (suc m) n =
    let at : suc m + n ≡ suc (m + n) = omega arith in
    ap (◌^◌ b) at ∙ (pow-suc b (m + n) ∙ rw (pow_add b m n, pow-suc b m) (grind arith))

pub hex_value-append : (s t : Text) → hex_value (s ++ t) ≡ hex_value s * 16 ^ length t + hex_value t
unfolding hex_value
hex_value-append [] t = omega arith
hex_value-append (c ∷ s) t =
    rw (hex_value-append s t, length-append s t, pow_add 16 (length s) (length t)) (grind arith)

digit_lt : (c d : ℕ) → digit_value c ≡ some d → d < 16 → digit c < 16
unfolding digit
digit_lt c d e lt = rw (e, digit) lt

pub hex_value-lt : (t : Text) → All IsDigit t → hex_value t < 16 ^ length t
unfolding hex_value
hex_value-lt [] h = omega arith
hex_value-lt (c ∷ t) ((d, e, lt), h) =
    let below = hex_value-lt t h in
    let here : digit c < 16 = digit_lt c d e lt in
    rw (pow-suc 16 (length t)) (grind (arith, below, here))

take_append_drop : (k : ℕ) (t : Text) → take k t ++ drop k t ≡ t
take_append_drop zero t = refl
take_append_drop (suc k) [] = refl
take_append_drop (suc k) (c ∷ t) = ap (◌∷◌ c) (take_append_drop k t)

pub drop-All : (k : ℕ) (t : Text) → All IsDigit t → All IsDigit (drop k t)
drop-All zero t h = h
drop-All (suc k) [] h = h
drop-All (suc k) (c ∷ t) (p, h) = drop-All k t h

-- The last digits are the value modulo a power of 16.
pub hex_value-drop :
    (k : ℕ) (t : Text) → All IsDigit t → hex_value (drop k t) ≡ hex_value t % 16 ^ length (drop k t)
hex_value-drop k t h =
    let size = 16 ^ length (drop k t) in
    let split : hex_value t ≡ hex_value (take k t) * size + hex_value (drop k t) =
      ap hex_value (sym (take_append_drop k t)) ∙ hex_value-append (take k t) (drop k t) in
    sym (
      ap (λ n. n % size) split
      ∙ (mul-add-mod_self_right (hex_value (take k t)) size (hex_value (drop k t))
          ∙ mod-eq_of_lt (hex_value-lt (drop k t) (drop-All k t h))))
