-- ===== src/Sdk/Roundtrip/Rows.antt =====
-- The rows that `encode` builds for an image with clear edges (packages/nouns-sdk/src/image/image.ts).
use sznouns.Prelude.{
  ℕ, zero, suc, ◌+◌, ◌-◌, ◌<◌, ◌≤◌, ◌≡◌, ◌⊎◌, refl, sym, ap, ◌∙◌, true, false, some, List, [], ◌∷◌,
  arith, ◌==◌, length, get_elem?, get_elem?-replicate, some_eq, All,
}
use sznouns.Sdk.Palette.{Palette, color_get}
use sznouns.Sdk.Palette.Laws.{IsIndexed}
use sznouns.Sdk.Image.{
  Rect, RgbaColor, Pixels, first_rect, last_rect, length_of, push_pixel, is_empty_row,
}
use sznouns.Sdk.Image.Runs.{
  expand, IsRuns, push_all, expand-push_all, push_all-IsRuns, expand-is_empty_row,
}
use sznouns.Sdk.Image.Rows.{enumerate}
use sznouns.Sdk.Image.Edges.{first_run_pixel, last_run_pixel, outer_runs_apart, first_of_blank}
use sznouns.Sdk.Encode.{index_of}
use sznouns.Sdk.Encode.Slices.{Indexed}
use sznouns.Sdk.Encode.Loops.{pixel_index, row_runs, blank_row}

-- An image whose outer columns and first row are clear, and whose last row is clear or row 31.
pub record IsBordered (rgba_at : Pixels) (w h : ℕ) : Type 0 where
  pub wide : 0 < w
  pub narrow : w < 256
  pub tall : 0 < h
  pub short : h ≤ 256
  pub first_row : (x : ℕ) → x < w → (rgba_at x 0).a ≡ 0
  pub last_row : (h ≡ 32) ⊎ ((x : ℕ) → x < w → (rgba_at x (h - 1)).a ≡ 0)
  pub first_column : (y : ℕ) → y < h → (rgba_at 0 y).a ≡ 0
  pub last_column : (y : ℕ) → y < h → (rgba_at (w - 1) y).a ≡ 0

-- A palette as the encoder's constructor makes it: positions for indices, 0 for the transparent entry.
pub record IsPalette (colors : Palette) : Type 0 where
  pub indexed : IsIndexed colors
  pub transparent : color_get [] colors ≡ some 0

pub get_elem?-enumerate {ℓ} :
    {A : Type ℓ} (f : ℕ → A) (i n j : ℕ) → j < n → get_elem? (enumerate f i n) j ≡ some (f (i + j))
get_elem?-enumerate f i zero j h = absurd (omega arith)
get_elem?-enumerate f i (suc n) zero h = ap (λ k. some (f k)) (omega arith)
get_elem?-enumerate f i (suc n) (suc j) h =
    let e : i + 1 + j ≡ i + suc j = omega arith in
    get_elem?-enumerate f (i + 1) n j (omega arith) ∙ ap (λ k. some (f k)) e

pub length-enumerate {ℓ} : {A : Type ℓ} (f : ℕ → A) (i n : ℕ) → length (enumerate f i n) ≡ n
length-enumerate f i zero = refl
length-enumerate f i (suc n) = ap suc (length-enumerate f (i + 1) n)

enumerate_cong :
    (f g : ℕ → ℕ) (i n : ℕ)
    → ((x : ℕ) → i ≤ x → x < i + n → f x ≡ g x)
    → enumerate f i n ≡ enumerate g i n
enumerate_cong f g i zero h = refl
enumerate_cong f g i (suc n) h =
    ap (λ c. c ∷ enumerate f (i + 1) n) (h i (omega arith) (omega arith))
    ∙ ap (◌∷◌ (g i)) (enumerate_cong f g (i + 1) n (λ x p q. h x (omega arith) (omega arith)))

pub clear_index : (px : RgbaColor) (p : Palette) → px.a ≡ 0 → index_of px p ≡ 0
clear_index px p e = ground arith

module _ (rgba_at : Pixels) (p : Palette) (w : ℕ) (wide : 0 < w) (y : ℕ) where
  pub expand-row_runs : expand (row_runs rgba_at p w y) ≡ enumerate (pixel_index rgba_at p y) 0 w
  expand-row_runs = expand-push_all (enumerate (pixel_index rgba_at p y) 0 w) []

  pub row_runs-IsRuns : IsRuns (row_runs rgba_at p w y)
  row_runs-IsRuns = push_all-IsRuns (enumerate (pixel_index rgba_at p y) 0 w) [] tt

  pub length-row_runs : length (expand (row_runs rgba_at p w y)) ≡ w
  length-row_runs = ap length expand-row_runs ∙ length-enumerate (pixel_index rgba_at p y) 0 w

  pub pixel_at :
      (x : ℕ)
      → x < w
      → get_elem? (expand (row_runs rgba_at p w y)) x ≡ some (pixel_index rgba_at p y x)
  pixel_at x h =
      ap (λ cs. get_elem? cs x) expand-row_runs
      ∙ (get_elem?-enumerate (pixel_index rgba_at p y) 0 w x h
          ∙ ap (λ k. some (pixel_index rgba_at p y k)) (omega arith))

  -- A row is blank exactly if its pixels are clear.
  pub blank_row_pixel :
      (x : ℕ) → blank_row rgba_at p w y ≡ true → x < w → pixel_index rgba_at p y x ≡ 0
  blank_row_pixel x e h = some_eq (
      sym (pixel_at x h)
      ∙ (ap (λ cs. get_elem? cs x)
            (expand-is_empty_row w (row_runs rgba_at p w y) length-row_runs e)
          ∙ get_elem?-replicate w 0 x h))

  pub clear_row_blank : ((x : ℕ) → x < w → (rgba_at x y).a ≡ 0) → blank_row rgba_at p w y ≡ true
  unfolding is_empty_row push_pixel
  clear_row_blank clear = blank_of w wide (
      enumerate_cong (pixel_index rgba_at p y) (λ x. 0) 0 w
        (λ x le lt. clear_index (rgba_at x y) p (clear x (omega arith))))
    where
      blank_of :
          (n : ℕ)
          → 0 < n
          → enumerate (pixel_index rgba_at p y) 0 n ≡ enumerate (λ x. 0) 0 n
          → is_empty_row n (first_rect (push_all (enumerate (pixel_index rgba_at p y) 0 n) []))
            ≡ true
      blank_of zero pos e = absurd (omega arith)
      blank_of (suc n) pos e =
          ap (λ cs. is_empty_row (suc n) (first_rect (push_all cs []))) e
          ∙ (ap (λ rs. is_empty_row (suc n) (first_rect rs)) (first_of_blank n 1)
              ∙ let size : (1 + n == suc n) ≡ true = ground arith in rw size)

  module _ (first : (rgba_at 0 y).a ≡ 0) (last : (rgba_at (w - 1) y).a ≡ 0) where
    first_clear : get_elem? (expand (row_runs rgba_at p w y)) 0 ≡ some 0
    first_clear = pixel_at 0 wide ∙ ap some (clear_index (rgba_at 0 y) p first)

    last_clear : get_elem? (expand (row_runs rgba_at p w y)) (w - 1) ≡ some 0
    last_clear = pixel_at (w - 1) (omega arith) ∙ ap some (clear_index (rgba_at (w - 1) y) p last)

    -- Left and right of what lies between the outer runs every pixel is clear.
    pub left_pixel :
        (x : ℕ)
        → x < w
        → x < length_of (first_rect (row_runs rgba_at p w y))
        → pixel_index rgba_at p y x ≡ 0
    left_pixel x lt h = some_eq (
        sym (pixel_at x lt)
        ∙ first_run_pixel (row_runs rgba_at p w y) x 0 row_runs-IsRuns first_clear h)

    pub right_pixel :
        (x : ℕ)
        → x < w
        → w ≤ x + length_of (last_rect (row_runs rgba_at p w y))
        → pixel_index rgba_at p y x ≡ 0
    right_pixel x lt h = some_eq (
        sym (pixel_at x lt)
        ∙ last_run_pixel (row_runs rgba_at p w y) x 0 row_runs-IsRuns
            (ap (λ k. get_elem? (expand (row_runs rgba_at p w y)) (k - 1)) length-row_runs
              ∙ last_clear)
            (omega (arith, length-row_runs)) (omega (arith, length-row_runs)))

    pub full_row_sides :
        blank_row rgba_at p w y ≡ false
        → length_of (first_rect (row_runs rgba_at p w y))
            + length_of (last_rect (row_runs rgba_at p w y))
          < w
    full_row_sides e =
        outer_runs_apart w (row_runs rgba_at p w y) wide row_runs-IsRuns length-row_runs e
          first_clear last_clear

push_pixel-Indexed : (c : ℕ) (rs : List Rect) → c < 256 → Indexed rs → Indexed (push_pixel c rs)
unfolding push_pixel
push_pixel-Indexed c [] h k = (h, tt)
push_pixel-Indexed c (r ∷ []) h (k, l) = ground arith
push_pixel-Indexed c (r ∷ s ∷ rs) h (k, l) = (k, push_pixel-Indexed c (s ∷ rs) h l)

pub push_all-Indexed :
    (cs : List ℕ) (rs : List Rect) → All (λ c. c < 256) cs → Indexed rs → Indexed (push_all cs rs)
push_all-Indexed [] rs h k = k
push_all-Indexed (c ∷ cs) rs (h, hs) k =
    push_all-Indexed cs (push_pixel c rs) hs (push_pixel-Indexed c rs h k)

pub All-enumerate {ℓ κ} :
    {A : Type ℓ} (P : A → Type κ) (f : ℕ → A) (i n : ℕ)
    → ((x : ℕ) → i ≤ x → x < i + n → P (f x))
    → All P (enumerate f i n)
All-enumerate P f i zero h = tt
All-enumerate P f i (suc n) h = (
  h i (omega arith) (omega arith),
  All-enumerate P f (i + 1) n (λ x p q. h x (omega arith) (omega arith)),
)
