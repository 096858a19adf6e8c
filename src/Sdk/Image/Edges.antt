-- ===== src/Sdk/Image/Edges.antt =====
-- The outer runs of a row (packages/nouns-sdk/src/image/image.ts): which pixels they hold, and that a
-- row with clear ends and something between them has bounds that enclose it.
use sznouns.Prelude.{
  ℕ, zero, suc, ◌+◌, ◌-◌, ◌<◌, ◌≤◌, ◌≡◌, sym, ap, ◌∙◌, false, some, List, [], ◌∷◌, arith, length,
  length-append, replicate, length-replicate, get_elem?, some_eq, get_elem?-append_left,
  get_elem?-append_right, get_elem?-replicate,
}
use sznouns.Sdk.Image.{Rect, is_empty_row, first_rect, last_rect, length_of, push_pixel}
use sznouns.Sdk.Image.Runs.{expand, IsRuns, push_all}
use sznouns.Sdk.Image.Rows.{enumerate}

pub length-expand :
    (r : Rect) (rs : List Rect) → length (expand (r ∷ rs)) ≡ r.length + length (expand rs)
length-expand r rs =
    length-append (replicate r.length r.color_index) (expand rs)
    ∙ ap (λ k. k + length (expand rs)) (length-replicate r.length r.color_index)

-- The pixels of the first run are all like pixel 0.
pub first_run_pixel :
    (rs : List Rect) (x c : ℕ)
    → IsRuns rs
    → get_elem? (expand rs) 0 ≡ some c
    → x < length_of (first_rect rs)
    → get_elem? (expand rs) x ≡ some c
first_run_pixel [] x c p e h = absurd (omega arith)
first_run_pixel (r ∷ rs) x c p e h =
    get_elem?-append_left (replicate r.length r.color_index) (expand rs) x
      (omega (arith, length-replicate {0} r.length r.color_index))
    ∙ (get_elem?-replicate r.length r.color_index x h
        ∙ (sym (get_elem?-replicate r.length r.color_index 0 (omega arith))
            ∙ (sym (
                  get_elem?-append_left (replicate r.length r.color_index) (expand rs) 0
                    (omega (arith, length-replicate {0} r.length r.color_index)))
                ∙ e)))

length-last : (rs : List Rect) → length_of (last_rect rs) ≤ length (expand rs)
length-last [] = omega arith
length-last (r ∷ []) = omega (arith, length-expand r [])
length-last (r ∷ s ∷ rs) = omega (arith, length-expand r (s ∷ rs), length-last (s ∷ rs))

length-first : (rs : List Rect) → length_of (first_rect rs) ≤ length (expand rs)
length-first [] = omega arith
length-first (r ∷ rs) = omega (arith, length-expand r rs)

abbrev last_color : List Rect → ℕ
last_color [] = 0
last_color (r ∷ []) = r.color_index
last_color (r ∷ s ∷ rs) = last_color (s ∷ rs)

last_run_at :
    (rs : List Rect) (x : ℕ)
    → x < length (expand rs)
    → length (expand rs) ≤ x + length_of (last_rect rs)
    → get_elem? (expand rs) x ≡ some (last_color rs)
last_run_at [] x lt le = absurd (omega arith)
last_run_at (r ∷ []) x lt le =
    get_elem?-append_left (replicate r.length r.color_index) [] x
      (omega (arith, length-expand r [], length-replicate {0} r.length r.color_index))
    ∙ get_elem?-replicate r.length r.color_index x (omega (arith, length-expand r []))
last_run_at (r ∷ s ∷ rs) x lt le =
    let whole = length-expand r (s ∷ rs) in
    let tail = length-last (s ∷ rs) in
    get_elem?-append_right (replicate r.length r.color_index) (expand (s ∷ rs)) x
      (omega (arith, whole, length-replicate {0} r.length r.color_index, tail))
    ∙ (ap (λ k. get_elem? (expand (s ∷ rs)) (x - k)) (length-replicate r.length r.color_index)
        ∙ last_run_at (s ∷ rs) (x - r.length) (omega (arith, whole, tail))
            (omega (arith, whole, tail)))

length-last_pos :
    (rs : List Rect) → IsRuns rs → 0 < length (expand rs) → 0 < length_of (last_rect rs)
length-last_pos [] p h = h
length-last_pos (r ∷ []) p h = p
length-last_pos (r ∷ s ∷ []) (p, d, q) h = q
length-last_pos (r ∷ s ∷ t ∷ rs) (p, d, q) h =
    length-last_pos (s ∷ t ∷ rs) q (omega (arith, length-expand s (t ∷ rs), q.0))

-- The pixels of the last run are all like the last pixel.
pub last_run_pixel :
    (rs : List Rect) (x c : ℕ)
    → IsRuns rs
    → get_elem? (expand rs) (length (expand rs) - 1) ≡ some c
    → x < length (expand rs)
    → length (expand rs) ≤ x + length_of (last_rect rs)
    → get_elem? (expand rs) x ≡ some c
last_run_pixel rs x c p e lt le =
    last_run_at rs x lt le
    ∙ (sym (
          last_run_at rs (length (expand rs) - 1) (omega arith)
            (omega (arith, length-last_pos rs p (omega arith))))
        ∙ e)

first_color_at :
    (r : Rect) (rs : List Rect) → 0 < r.length → get_elem? (expand (r ∷ rs)) 0 ≡ some r.color_index
first_color_at r rs h =
    get_elem?-append_left (replicate r.length r.color_index) (expand rs) 0
      (omega (arith, length-replicate {0} r.length r.color_index))
    ∙ get_elem?-replicate r.length r.color_index 0 h

-- A row that is not blank, with clear ends, has something between its outer runs.
pub outer_runs_apart :
    (w : ℕ) (rs : List Rect)
    → 0 < w
    → IsRuns rs
    → length (expand rs) ≡ w
    → is_empty_row w (first_rect rs) ≡ false
    → get_elem? (expand rs) 0 ≡ some 0
    → get_elem? (expand rs) (w - 1) ≡ some 0
    → length_of (first_rect rs) + length_of (last_rect rs) < w
unfolding is_empty_row
outer_runs_apart w [] pos p n full first last = absurd (omega arith)
outer_runs_apart w (r ∷ []) pos p n full first last =
    let color : r.color_index ≡ 0 = some_eq (sym (first_color_at r [] p) ∙ first) in
    let whole : r.length ≡ w = omega (arith, length-expand r []) in absurd (ground arith)
outer_runs_apart w (r ∷ s ∷ []) pos (p, d, q) n full first last =
    let color : r.color_index ≡ 0 = some_eq (sym (first_color_at r (s ∷ []) p) ∙ first) in
    let color' : s.color_index ≡ 0 =
      some_eq (sym (last_run_at (r ∷ s ∷ []) (w - 1) (omega arith) (omega arith)) ∙ last) in
    absurd (d (color ∙ sym color'))
outer_runs_apart w (r ∷ s ∷ t ∷ rs) pos (p, d, q) n full first last =
    omega (arith, length-expand r (s ∷ t ∷ rs), length-expand s (t ∷ rs), length-last (t ∷ rs), q.0)

-- The number of pixels that are pushed is the length of the row.
pub first_of_blank :
    (n k : ℕ)
    → push_all (enumerate (λ x. 0) k n) (record { length = k; color_index = 0 } ∷ [])
      ≡ record { length = k + n; color_index = 0 } ∷ []
unfolding push_pixel
first_of_blank zero k =
    let e : k ≡ k + 0 = omega arith in ap (λ n. record { length = n; color_index = 0 } ∷ []) e
first_of_blank (suc n) k =
    let e : k + 1 + n ≡ k + suc n = omega arith in
    first_of_blank n (k + 1) ∙ ap (λ n. record { length = n; color_index = 0 } ∷ []) e
