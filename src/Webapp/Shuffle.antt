-- ===== src/Webapp/Shuffle.antt =====
-- The shuffle of packages/nouns-webapp/src/utils/pseudoRandomPredictableShuffle.ts. The operations on
-- floating-point numbers are a parameter.
use sznouns.Prelude.{
  ℕ, zero, suc, ◌+◌, ◌<◌, ◌≡◌, refl, ap, ◌∙◌, Option, none, some, List, [], ◌∷◌, arith, ◌==◌,
  if◌then◌else◌, length,
}
use mathlib.Core.List.{Perm}
use mathlib.Core.List.Perm

module _ {ℓ} {A : Type ℓ} where
  -- The element at an index, and the others.
  abbrev pub take_out : ℕ → List A → Option (A × List A)
  take_out i [] = none
  take_out zero (x ∷ xs) = some (x, xs)
  take_out (suc i) (x ∷ xs) = elim (take_out i xs) [ none ↦ none | some (y, ys) ↦ some (y, x ∷ ys) ]

module _ {ℓ} {A : Type ℓ} where
  abbrev pub put_first : A → Option (List A) → Option (List A)
  put_first x none = none
  put_first x (some output) = some (x ∷ output)

  abbrev pub then_shuffle : Option (A × List A) → (List A → Option (List A)) → Option (List A)
  then_shuffle none shuffle = none
  then_shuffle (some (x, rest)) shuffle = put_first x (shuffle rest)

-- The floating-point numbers of the language. `minus_floor` is the range of what a number has above its
-- floor, for the sines of integers, of which none is so little below a ten-thousandth that the difference
-- rounds to 1; `floor_times` says that a product with a number below 1 does not round up to the other
-- factor.
pub record Floats : Type 1 where
  pub Float : Type 0
  pub of_nat : ℕ → Float
  pub sin : Float → Float
  pub times : Float → Float → Float
  pub minus : Float → Float → Float
  pub floor : Float → Float
  -- The element of an array that an integer names.
  pub position : Float → ℕ
  -- From 0 on and below 1.
  pub IsFraction : Float → Type 0
  pub minus_floor :
      (n : ℕ)
      → IsFraction (
          minus
            (times (sin (of_nat n)) (of_nat 10000))
            (floor (times (sin (of_nat n)) (of_nat 10000))))
  pub floor_times :
      (n : ℕ) (r : Float) → 0 < n → IsFraction r → position (floor (times (of_nat n) r)) < n

module _ (r : Floats) where
  open r use {of_nat, sin, times, minus, floor, position, minus_floor, floor_times}

  unfoldable pub random_index : ℕ → ℕ → ℕ
  random_index seed input_length =
      let rand = times (sin (of_nat seed)) (of_nat 10000) in
      let rand' = minus rand (floor rand) in position (floor (times (of_nat input_length) rand'))

  random_index-lt : (seed n : ℕ) → 0 < n → random_index seed n < n
  unfolding random_index
  random_index-lt seed n h =
      floor_times n
        (minus (times (sin (of_nat seed)) (of_nat 10000))
          (floor (times (sin (of_nat seed)) (of_nat 10000))))
        h (minus_floor seed)

module _ {ℓ} {A : Type ℓ} (r : Floats) where
  -- The rounds left are the length of the input; `none` would be an index out of range.
  abbrev pub shuffle_from : ℕ → List A → ℕ → Option (List A)
  shuffle_from zero input seed = some []
  shuffle_from (suc n) input seed =
      let seed' = if seed == 0 then 1 else seed in
      then_shuffle (take_out (random_index r seed' (suc n)) input)
        (λ rest. shuffle_from n rest (seed' + 1))

  unfoldable pub pseudo_random_predictable_shuffle : List A → ℕ → Option (List A)
  pseudo_random_predictable_shuffle input seed = shuffle_from (length input) input seed

module _ {ℓ} {A : Type ℓ} where
  take_out-perm :
      (i : ℕ) (xs : List A)
      → i < length xs
      → (x : A) × (rest : List A) × (take_out i xs ≡ some (x, rest))
        × (length xs ≡ suc (length rest))
        × Perm (x ∷ rest) xs
  take_out-perm i [] h = absurd (omega arith)
  take_out-perm zero (x ∷ xs) h = (x, xs, refl, refl, Perm.refl (x ∷ xs))
  take_out-perm (suc i) (x ∷ xs) h =
      let (y, rest, e, size, perm) = take_out-perm i xs (omega arith) in
      (y, x ∷ rest, rw e refl, omega arith, Perm.trans (Perm.swap x y rest) (Perm.cons x perm))

  shuffle_from-perm :
      (r : Floats) (n : ℕ) (input : List A) (seed : ℕ)
      → length input ≡ n
      → (output : List A) × (shuffle_from r n input seed ≡ some output) × Perm output input
  shuffle_from-perm r zero [] seed e = ([], refl, Perm.refl [])
  shuffle_from-perm r zero (x ∷ input) seed e = absurd (omega arith)
  shuffle_from-perm r (suc n) input seed e =
      let seed' = if seed == 0 then 1 else seed in
      let lt = random_index-lt r seed' (suc n) (omega arith) in
      let (x, rest, out, size, perm) =
        take_out-perm (random_index r seed' (suc n)) input (omega arith) in
      let (output, done, shuffled) = shuffle_from-perm r n rest (seed' + 1) (omega arith) in
      (
        x ∷ output,
        ap (λ o. then_shuffle o (λ rest. shuffle_from r n rest (seed' + 1))) out
            ∙ ap (put_first x) done,
        Perm.trans (Perm.cons x shuffled) perm,
      )

  -- With floating-point numbers as above and from any seed, each index is that of an element that is left, the
  -- loop ends, and the output has the elements of the input.
  pub pseudo_random_predictable_shuffle-perm :
      (r : Floats) (input : List A) (seed : ℕ)
      → (output : List A) × (pseudo_random_predictable_shuffle r input seed ≡ some output)
        × Perm output input
  unfolding pseudo_random_predictable_shuffle
  pseudo_random_predictable_shuffle-perm r input seed =
      shuffle_from-perm r (length input) input seed refl
