-- ===== src/Sdk/Image/Rows.antt =====
-- The rows of an image, kept in ascending order (packages/nouns-sdk/src/image/image.ts).
use sznouns.Prelude.{
  ℕ, zero, suc, ◌+◌, ◌<◌, ◌≤◌, ◌≡◌, refl, ap, ◌∙◌, none, some, List, [], ◌∷◌, ◌++◌, arith,
}
use sznouns.Sdk.Image.{
  ImageRow, ImageRows, rows_get, rows_set, rows_delete, rows_values, delete_from, delete_down,
}

-- Every key is below `y`.
abbrev pub Below : ℕ → ImageRows → Type 0
Below y [] = Unit {0}
Below y ((k, row) ∷ m) = (k < y) × Below y m

pub rows_get_last :
    (y : ℕ) (row : ImageRow) (m : ImageRows)
    → Below y m
    → rows_get y (m ++ (y, row) ∷ []) ≡ some row
unfolding rows_get
rows_get_last y row [] h = ground arith
rows_get_last y row ((k, other) ∷ m) (lt, h) = ground (arith, rows_get_last y row m h)

pub rows_get-Below : (y : ℕ) (m : ImageRows) → Below y m → rows_get y m ≡ none
unfolding rows_get
rows_get-Below y [] h = refl
rows_get-Below y ((k, other) ∷ m) (lt, h) = ground (arith, rows_get-Below y m h)

pub rows_set_last :
    (y : ℕ) (row old : ImageRow) (m : ImageRows)
    → Below y m
    → rows_set y row (m ++ (y, old) ∷ []) ≡ m ++ (y, row) ∷ []
unfolding rows_set
rows_set_last y row old [] h = ground arith
rows_set_last y row old ((k, other) ∷ m) (lt, h) = ground (arith, rows_set_last y row old m h)

pub rows_set-Below :
    (y : ℕ) (row : ImageRow) (m : ImageRows) → Below y m → rows_set y row m ≡ m ++ (y, row) ∷ []
unfolding rows_set
rows_set-Below y row [] h = refl
rows_set-Below y row ((k, other) ∷ m) (lt, h) = ground (arith, rows_set-Below y row m h)

-- The rows `g i`, `g (i + 1)`, …, `n` of them.
abbrev pub row_list : (ℕ → ImageRow) → ℕ → ℕ → ImageRows
row_list g i zero = []
row_list g i (suc n) = (i, g i) ∷ row_list g (i + 1) n

pub row_list_snoc :
    (g : ℕ → ImageRow) (i n : ℕ) → row_list g i (suc n) ≡ row_list g i n ++ (i + n, g (i + n)) ∷ []
row_list_snoc g i zero = let e : i ≡ i + 0 = omega arith in ap (λ k. (k, g k) ∷ []) e
row_list_snoc g i (suc n) =
    let e : (i + 1) + n ≡ i + suc n = omega arith in
    ap (◌∷◌ (i, g i)) (rw (← e) (row_list_snoc g (i + 1) n))

pub row_list-Below : (g : ℕ → ImageRow) (i n y : ℕ) → i + n ≤ y → Below y (row_list g i n)
row_list-Below g i zero y h = tt
row_list-Below g i (suc n) y h = (omega arith, row_list-Below g (i + 1) n y (omega arith))

delete-absent :
    (g : ℕ → ImageRow) (i n k : ℕ) → k < i → rows_delete k (row_list g i n) ≡ row_list g i n
unfolding rows_delete
delete-absent g i zero k h = refl
delete-absent g i (suc n) k h = ground (arith, delete-absent g (i + 1) n k)

delete-first :
    (g : ℕ → ImageRow) (i n : ℕ) → rows_delete i (row_list g i (suc n)) ≡ row_list g (i + 1) n
unfolding rows_delete
delete-first g i n = ground (arith, delete-absent g (i + 1) n i)

delete-last :
    (g : ℕ → ImageRow) (i n : ℕ) → rows_delete (i + n) (row_list g i (suc n)) ≡ row_list g i n
unfolding rows_delete
delete-last g i zero = ground arith
delete-last g i (suc n) =
    let e : (i + 1) + n ≡ i + suc n = omega arith in ground (arith, delete-last g (i + 1) n)

pub row_list_cong :
    (g : ℕ → ImageRow) {i j n m : ℕ} → i ≡ j → n ≡ m → row_list g i n ≡ row_list g j m
row_list_cong g p q = cc

-- Deleting the rows below the top bound leaves those from it on.
pub delete_from-row_list :
    (g : ℕ → ImageRow) (k i n : ℕ) → delete_from k i (row_list g i (k + n)) ≡ row_list g (i + k) n
unfolding delete_from
delete_from-row_list g zero i n = row_list_cong g (omega arith) (omega arith)
delete_from-row_list g (suc k) i n =
    ap (λ m. delete_from k (i + 1) (rows_delete i m))
      (row_list_cong g {i = i} refl (let e : suc k + n ≡ suc (k + n) = omega arith in e))
    ∙ (ap (delete_from k (i + 1)) (delete-first g i (k + n))
        ∙ (delete_from-row_list g k (i + 1) n ∙ row_list_cong g (omega arith) refl))

-- Deleting the rows above the bottom bound leaves those up to it.
pub delete_down-row_list :
    (g : ℕ → ImageRow) (i n k : ℕ)
    → delete_down k (i + n) (row_list g i (suc n + k)) ≡ row_list g i (suc n)
unfolding delete_down
delete_down-row_list g i n zero =
    row_list_cong g {i = i} {n = suc n + 0} {m = suc n} refl (omega arith)
delete_down-row_list g i n (suc k) =
    let at : i + n + suc k ≡ i + (suc n + k) = omega arith in
    let size : suc n + suc k ≡ suc (suc n + k) = omega arith in
    ap (delete_down k (i + n)) (
      ap (λ j. rows_delete j (row_list g i (suc n + suc k))) at
      ∙ (ap (rows_delete (i + (suc n + k))) (row_list_cong g {i = i} refl size)
          ∙ delete-last g i (suc n + k)))
    ∙ delete_down-row_list g i n k

abbrev pub enumerate {ℓ} : {A : Type ℓ} → (ℕ → A) → ℕ → ℕ → List A
enumerate f i zero = []
enumerate f i (suc n) = f i ∷ enumerate f (i + 1) n

pub rows_values-row_list :
    (g : ℕ → ImageRow) (i n : ℕ) → rows_values (row_list g i n) ≡ enumerate g i n
unfolding rows_values
rows_values-row_list g i zero = refl
rows_values-row_list g i (suc n) = ap (◌∷◌ (g i)) (rows_values-row_list g (i + 1) n)
