-- ===== src/Assets/Seeds.antt =====
-- The seeds of packages/nouns-assets/src/utils.ts against those of
-- packages/nouns-contracts/contracts/NounsSeeder.sol.
use sznouns.Prelude.{
  ℕ, zero, suc, ◌+◌, ◌-◌, ◌/◌, ◌%◌, ◌^◌, ◌≤◌, ◌<◌, ◌≡◌, refl, sym, ap, ap₂, ◌∙◌, inl, inr, none,
  some, [], ◌∷◌, ◌++◌, arith, length, drop, Text, codes, if◌then◌else◌, ltb, ltb→lt, ltb→le,
  Bool-cases, ◌==◌,
}
use sznouns.Assets.Numbers.{BigNumbers, IsHexOf, hex_value, hex_value-drop, hex_value-lt, drop-All}
use native.Mathlib.Nat.{pow-le-pow_right, mod-le, mod-eq_of_lt}
use sznouns.Assets.{
  ImageData, shift_right_and_cast, get_pseudorandom_part, get_noun_seed_from_hash, uint48,
  contract_part, generate_seed,
}

length-drop : (k : ℕ) (t : Text) → length (drop k t) ≡ length t - k
length-drop zero t = omega arith
length-drop (suc k) [] = omega arith
length-drop (suc k) (c ∷ t) = omega (arith, length-drop k t)

drop-append : (s t : Text) (k : ℕ) → drop (length s + k) (s ++ t) ≡ drop k t
drop-append [] t k = ap (λ n. drop n t) (omega arith)
drop-append (c ∷ s) t k =
    ap (λ n. drop n (c ∷ s ++ t))
      (let e : suc (length s) + k ≡ suc (length s + k) = omega arith in e)
    ∙ drop-append s t k

-- A text of whole bytes for a number of at least 5 bytes and a bit has at least 6.
long_enough : {n : ℕ} {t : Text} → IsHexOf n t → 2 ^ 40 ≤ n → 12 ≤ length t
long_enough {n} {t} h le = elim (Bool-cases (ltb (length t) 11)) [
  | inl short ↦
      let small : length t ≤ 10 = omega (arith, ltb→lt (length t) 11 short) in
      let below : hex_value t < 16 ^ length t = hex_value-lt t h.digits in
      let top : 16 ^ length t ≤ 16 ^ 10 = pow-le-pow_right (omega arith) small in
      absurd (omega (arith, h.value))
  | inr long ↦ omega (arith, ltb→le (length t) 11 long, h.even.1)
]

too_short : {n : ℕ} {t : Text} → IsHexOf n t → n < 2 ^ 40 → length t ≤ 10
too_short {n} {t} h lt = elim h.minimal [
  | inl two ↦ omega arith
  | inr (more, least) ↦ elim (Bool-cases (ltb (length t) 12)) [
    | inl short ↦ omega (arith, ltb→lt (length t) 12 short, h.even.1)
    | inr long ↦
        let top : 16 ^ 10 ≤ 16 ^ (length t - 2) =
          pow-le-pow_right (omega arith) {i = 10} (omega (arith, ltb→le (length t) 12 long)) in
        absurd (omega arith)
  ]
]

checked_mod-eq :
    (m count : ℕ)
    → m < 2 ^ 48
    → (if count == 0 then none else some (m % count))
      ≡ (if count == 0 then none else some (uint48 (m % count)))
checked_mod-eq m count lt = elim (Bool-cases (count == 0)) [
  | inl z ↦ rw z
  | inr nz ↦
      let le : m % count ≤ m = mod-le m count in
      rw (nz) (ap some (sym (mod-eq_of_lt (omega arith))))
]

module _ (b : BigNumbers) where
  open b use {to_hex_string, hex_digits, from_text, from_digits, from_prefix}

  get_pseudorandom_part-eq-contract :
      (value count shift : ℕ)
      → 2 ^ 40 ≤ value / 2 ^ shift
      → get_pseudorandom_part b value count shift ≡ contract_part value count shift
  unfolding get_pseudorandom_part shift_right_and_cast
  get_pseudorandom_part-eq-contract value count shift le =
      let n = value / 2 ^ shift in
      let (t, e, h) = hex_digits n in
      let big = long_enough h le in
      let s = drop (length t - 12) t in
      let start : length (codes "0x" ++ t) - 12 ≡ 2 + (length t - 12) = omega arith in
      let last : drop (length (codes "0x" ++ t) - 12) (codes "0x" ++ t) ≡ s =
        ap (λ k. drop k (codes "0x" ++ t)) start ∙ drop-append (codes "0x") t (length t - 12) in
      let size : length s ≡ 12 = omega (arith, length-drop (length t - 12) t) in
      let low : hex_value s ≡ n % 2 ^ 48 =
        hex_value-drop (length t - 12) t h.digits ∙ ap₂ (λ m k. m % 16 ^ k) h.value size in
      rw (e, last, from_digits s (drop-All (length t - 12) t h.digits) (omega arith), low)
        (checked_mod-eq (n % 2 ^ 48) count (omega arith))

  get_pseudorandom_part-short :
      (value count shift : ℕ)
      → value / 2 ^ shift < 2 ^ 40
      → get_pseudorandom_part b value count shift ≡ none
  unfolding get_pseudorandom_part shift_right_and_cast
  get_pseudorandom_part-short value count shift lt =
      let n = value / 2 ^ shift in
      let (t, e, h) = hex_digits n in
      let start : length (codes "0x" ++ t) - 12 ≡ 0 = omega (arith, too_short h lt) in
      rw (e, start, from_prefix t) refl

  -- Whenever the hash has a bit of 2^232 or above, the seed is the one that the contract draws, an
  -- empty list of parts included; for any other hash there is an exception.
  pub get_noun_seed_from_hash-eq-generate_seed :
      (images : ImageData) (value : ℕ)
      → get_noun_seed_from_hash b images value
        ≡ (if ltb value (2 ^ 232) then none else generate_seed images value)
  unfolding get_noun_seed_from_hash generate_seed
  get_noun_seed_from_hash-eq-generate_seed images value = elim (Bool-cases (ltb value (2 ^ 232))) [
    | inl low ↦
        rw
          (
            low,
            get_pseudorandom_part-short value (length images.glasses) 192
                (omega (arith, ltb→lt value (2 ^ 232) low)),
          )
          (ground arith)
    | inr high ↦
        let le = ltb→le value (2 ^ 232) high in
        rw
          (
            high,
            get_pseudorandom_part-eq-contract value (length images.bgcolors) 0 (omega arith),
            get_pseudorandom_part-eq-contract value (length images.bodies) 48 (omega arith),
            get_pseudorandom_part-eq-contract value (length images.accessories) 96 (omega arith),
            get_pseudorandom_part-eq-contract value (length images.heads) 144 (omega arith),
            get_pseudorandom_part-eq-contract value (length images.glasses) 192 (omega arith),
          )
          refl
  ]
