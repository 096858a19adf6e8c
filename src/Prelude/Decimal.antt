-- ===== src/Prelude/Decimal.antt =====
-- Numbers as texts: `String(n)` and `Number(text)`, which packages/nouns-bots/src/cache.ts relies on.
use sznouns.Prelude.{
  ℕ, zero, suc, ◌+◌, ◌-◌, ◌*◌, ◌/◌, ◌%◌, ◌≤◌, ◌≡◌, refl, sym, ap, ◌∙◌, Bool, true, false, ◌&&◌, inl,
  inr, Option, none, some, [], ◌∷◌, ◌++◌, arith, ltb, leb, if◌then◌else◌, ltb→le, Bool-cases, Text,
  some_eq,
}

decimal_from : ℕ → ℕ → Text
decimal_from zero n = (48 + n) ∷ []
decimal_from (suc fuel) n = elim (ltb n 10) [
  | true ↦ (48 + n) ∷ []
  | false ↦ decimal_from fuel (n / 10) ++ (48 + n % 10) ∷ []
]

unfoldable pub to_decimal : ℕ → Text
unfolding decimal_from
to_decimal n = decimal_from n n

abbrev pub is_digit : ℕ → Bool
is_digit c = leb 48 c && leb c 57

unfoldable pub number_from : ℕ → Text → Option ℕ
number_from acc [] = some acc
number_from acc (c ∷ t) = if is_digit c then number_from (acc * 10 + (c - 48)) t else none

-- `Number(text)` of digits; `none` is NaN, which is what a text gives that is no number. The bot stores
-- no sign, point, exponent or white space.
unfoldable pub number : Text → Option ℕ
unfolding number_from
number t = number_from 0 t

number_from-append :
    (acc : ℕ) (s : Text) (c a : ℕ)
    → number_from acc s ≡ some a
    → leb 48 c && leb c 57 ≡ true
    → number_from acc (s ++ c ∷ []) ≡ some (a * 10 + (c - 48))
unfolding number_from
number_from-append acc [] c a e d = rw d (ground arith)
number_from-append acc (b ∷ s) c a e d = elim (Bool-cases (is_digit b)) [
  | inl ok ↦ rw ok (number_from-append (acc * 10 + (b - 48)) s c a (rw ok at e) d)
  | inr bad ↦ ground arith
]

number_from-decimal_from : (fuel n : ℕ) → n ≤ fuel → number_from 0 (decimal_from fuel n) ≡ some n
unfolding number_from decimal_from
number_from-decimal_from zero n le = ground arith
number_from-decimal_from (suc fuel) n le = elim (Bool-cases (ltb n 10)) [
  | inl small ↦ rw (small, decimal_from) (ground arith)
  | inr large ↦
      let big = ltb→le n 10 large in
      let low : n / 10 ≤ fuel = omega arith in
      let at : n / 10 * 10 + (48 + n % 10 - 48) ≡ n = omega arith in
      rw
        (
          large,
          decimal_from,
          number_from-append 0 (decimal_from fuel (n / 10)) (48 + n % 10) (n / 10)
              (number_from-decimal_from fuel (n / 10) low) (ground arith),
          at,
        )
        refl
]

pub number-to_decimal : (n : ℕ) → number (to_decimal n) ≡ some n
unfolding number to_decimal
number-to_decimal n = number_from-decimal_from n n (omega arith)

pub to_decimal-injective : (m n : ℕ) → to_decimal m ≡ to_decimal n → m ≡ n
to_decimal-injective m n e =
    some_eq (sym (number-to_decimal m) ∙ (ap number e ∙ number-to_decimal n))

decimal_from_cons : (fuel n : ℕ) → (c : ℕ) × (t : Text) × (decimal_from fuel n ≡ c ∷ t)
unfolding decimal_from
decimal_from_cons zero n = (48 + n, [], refl)
decimal_from_cons (suc fuel) n = elim (Bool-cases (ltb n 10)) [
  | inl small ↦ (48 + n, [], rw (small, decimal_from) refl)
  | inr large ↦
      let (c, t, e) = decimal_from_cons fuel (n / 10) in
      (c, t ++ (48 + n % 10) ∷ [], rw (large, decimal_from, e) refl)
]

-- A decimal is a truthy text.
pub to_decimal_cons : (n : ℕ) → (c : ℕ) × (t : Text) × (to_decimal n ≡ c ∷ t)
unfolding to_decimal
to_decimal_cons n = decimal_from_cons n n
