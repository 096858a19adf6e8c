-- ===== src/Sdk/Roundtrip/Cuts.antt =====
-- The rows between the bounds, cut at the left and right bound (packages/nouns-sdk/src/image/image.ts):
-- nothing but clear pixels is cut off.
use sznouns.Prelude.{
  ℕ, zero, suc, ◌+◌, ◌-◌, ◌<◌, ◌≤◌, ◌≡◌, refl, sym, ap, ◌∙◌, false, none, some, List, [], ◌∷◌, ◌++◌,
  arith, ◌==◌, leb, ltb, if◌then◌else◌, length, length-append, get_elem?, get_elem?-append_left,
  get_elem?-append_right, Bool-cases, inl, inr, Text,
}
use sznouns.Sdk.Palette.{Palette}
use sznouns.Sdk.Image.{Rect, ImageRow, ImageBounds, Pixels}
use sznouns.Sdk.Image.Runs.{expand}
use sznouns.Sdk.Image.Rows.{enumerate}
use sznouns.Sdk.Encode.{min_left, max_right}
use sznouns.Sdk.Encode.Slices.{Fits, Window, Positive, cut, expand-cut, cut-Positive}
use sznouns.Sdk.Encode.Loops.{pixel_index, row_runs, blank_row, finished_row}
use sznouns.Sdk.Svg.Paint.{shown}
use sznouns.Sdk.Roundtrip.Rows.{
  IsBordered, row_runs-IsRuns, length-row_runs, pixel_at, left_pixel, right_pixel, full_row_sides,
}

min_left-le :
    (g : ℕ → ImageRow) (i n j : ℕ)
    → i ≤ j
    → j < i + n
    → min_left (enumerate g i n) ≤ (g j).bounds.left
min_left-le g i zero j p q = absurd (omega arith)
min_left-le g i (suc zero) j p q = let e : i ≡ j = omega arith in rw e (omega arith)
min_left-le g i (suc (suc n)) j p q = elim (Bool-cases (i == j)) [
  | inl same ↦ let e : i ≡ j = ground arith in rw e (omega arith)
  | inr other ↦
      let ih = min_left-le g (i + 1) (suc n) j (ground arith) (omega arith) in omega (arith, ih)
]

le-max_right :
    (g : ℕ → ImageRow) (i n j : ℕ)
    → i ≤ j
    → j < i + n
    → (g j).bounds.right ≤ max_right (enumerate g i n)
le-max_right g i zero j p q = absurd (omega arith)
le-max_right g i (suc n) j p q = elim (Bool-cases (i == j)) [
  | inl same ↦ let e : i ≡ j = ground arith in rw e (omega arith)
  | inr other ↦
      let ih = le-max_right g (i + 1) n j (ground arith) (omega arith) in omega (arith, ih)
]

max_right-le :
    (g : ℕ → ImageRow) (i n w : ℕ)
    → ((j : ℕ) → (g j).bounds.right ≤ w)
    → max_right (enumerate g i n) ≤ w
max_right-le g i zero w h = omega arith
max_right-le g i (suc n) w h = omega (arith, h i, max_right-le g (i + 1) n w h)

Window-length :
    (pre post : ℕ) (cs inner : List ℕ)
    → Window pre post cs inner
    → length cs ≡ pre + (length inner + post)
Window-length pre post cs inner v = omega (
  arith,
  ap length v.parts,
  length-append {0} v.before (inner ++ v.after),
  length-append {0} inner v.after,
  v.length_before,
  v.length_after,
)

Window-pixel :
    (pre post : ℕ) (cs inner : List ℕ)
    → Window pre post cs inner
    → (x : ℕ) → pre ≤ x
    → x < pre + length inner
    → get_elem? inner (x - pre) ≡ get_elem? cs x
Window-pixel pre post cs inner v x le lt = sym (
    ap (λ ds. get_elem? ds x) v.parts
    ∙ (get_elem?-append_right v.before (inner ++ v.after) x (omega (arith, v.length_before))
        ∙ (ap (λ k. get_elem? (inner ++ v.after) (x - k)) v.length_before
            ∙ get_elem?-append_left inner v.after (x - pre) (omega arith))))

get_elem?_beyond : (cs : List ℕ) (x : ℕ) → length cs ≤ x → get_elem? cs x ≡ none
get_elem?_beyond [] x h = refl
get_elem?_beyond (c ∷ cs) zero h = absurd (omega arith)
get_elem?_beyond (c ∷ cs) (suc x) h = get_elem?_beyond cs x (omega arith)

-- The rows from `top` on, `n` of them, of which the first is not blank.
module _ (rgba_at : Pixels) (p : Palette) (w h : ℕ) (ok : IsBordered rgba_at w h) (top n bottom : ℕ)
    (some_rows : 0 < n) (in_image : top + n ≤ h) (full : blank_row rgba_at p w top ≡ false) where
  abbrev pub kept_rows : List ImageRow
  kept_rows = enumerate (finished_row rgba_at p w) top n

  abbrev pub final_bounds : ImageBounds
  final_bounds = record {
    top = top;
    right = max_right kept_rows;
    bottom = bottom;
    left = min_left kept_rows;
  }

  abbrev pub cut_row : ℕ → List Rect
  cut_row y = cut w final_bounds (row_runs rgba_at p w y)

  module _ (y : ℕ) (from : top ≤ y) (to : y < top + n) where
    pub row-Fits : Fits w final_bounds (row_runs rgba_at p w y)
    row-Fits =
        let low = min_left-le (finished_row rgba_at p w) top n top (omega arith) (omega arith) in
        let high = le-max_right (finished_row rgba_at p w) top n top (omega arith) (omega arith) in
        let low_y = min_left-le (finished_row rgba_at p w) top n y from to in
        let high_y = le-max_right (finished_row rgba_at p w) top n y from to in
        let within = max_right-le (finished_row rgba_at p w) top n w (λ j. omega arith) in
        let apart =
          full_row_sides rgba_at p w ok.wide top (ok.first_column top (omega arith))
            (ok.last_column top (omega arith)) full in
        record {
          width = ok.narrow;
          sides = omega (arith, low, high, apart);
          inside = within;
          first = low_y;
          last = omega (arith, high_y);
        }

    cut-Window :
        Window final_bounds.left
          (w - final_bounds.right)
          (expand (row_runs rgba_at p w y))
          (expand (cut_row y))
    cut-Window =
        expand-cut w final_bounds (row_runs rgba_at p w y) ok.wide row-Fits
          (length-row_runs rgba_at p w ok.wide y)

    pub length-cut_row : length (expand (cut_row y)) ≡ final_bounds.right - final_bounds.left
    length-cut_row = omega (
      arith,
      Window-length _ _ _ _ cut-Window,
      length-row_runs rgba_at p w ok.wide y,
      row-Fits.sides,
      row-Fits.inside,
    )

    pub cut_row-Positive : Positive (cut_row y)
    cut_row-Positive =
        cut-Positive w final_bounds (row_runs rgba_at p w y) (row_runs-IsRuns rgba_at p w ok.wide y)
          row-Fits

    -- A pixel of the row, behind the left bound or in front of it.
    pub cut_row_shows :
        (colors : List Text) (x : ℕ)
        → x < w
        → (if leb final_bounds.left x
            then shown colors (get_elem? (expand (cut_row y)) (x - final_bounds.left))
            else none)
          ≡ shown colors (some (pixel_index rgba_at p y x))
    cut_row_shows colors x lt =
        let fits = row-Fits in
        let size = length-cut_row in
        let first = ok.first_column y (omega arith) in
        let last = ok.last_column y (omega arith) in
        elim (Bool-cases (leb final_bounds.left x)) [
          | inr before ↦
              let clear =
                left_pixel rgba_at p w ok.wide y first last x lt (ground (arith, fits.first)) in
              rw (before, clear)
          | inl behind ↦ elim (Bool-cases (ltb x final_bounds.right)) [
            | inl inside ↦ rw behind (
                ap (shown colors) (
                  Window-pixel _ _ _ _ cut-Window x (ground arith)
                    (ground (arith, size, fits.sides))
                  ∙ pixel_at rgba_at p w ok.wide y x lt))
            | inr past ↦
                let clear =
                  right_pixel rgba_at p w ok.wide y first last x lt
                    (ground (arith, fits.last, fits.inside)) in
                let out =
                  get_elem?_beyond (expand (cut_row y)) (x - final_bounds.left)
                    (ground (arith, size)) in
                rw (behind, out, clear)
          ]
        ]
