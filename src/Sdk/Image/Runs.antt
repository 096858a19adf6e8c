-- ===== src/Sdk/Image/Runs.antt =====
-- The runs of a row (packages/nouns-sdk/src/image/image.ts, `appendPixelToRect`): they are what the
-- row's pixels are, maximal and not empty.
use sznouns.Prelude.{
  ℕ, zero, suc, ◌+◌, ◌<◌, ◌≡◌, ◌≢◌, refl, sym, ap, ◌∙◌, true, List, [], ◌∷◌, ◌++◌, append-nil,
  append_assoc, arith, ◌==◌, ==_iff, length, length-append, replicate, length-replicate, Bool-cases,
  inl, inr, nil_of_length,
}
use sznouns.Sdk.Image.{Rect, push_pixel, is_empty_row, first_rect}

-- The pixels that runs stand for.
abbrev pub expand : List Rect → List ℕ
expand [] = []
expand (r ∷ rs) = replicate r.length r.color_index ++ expand rs

-- Runs are not empty, and neighbours differ.
abbrev pub IsRuns : List Rect → Type 0
IsRuns [] = Unit {0}
IsRuns (r ∷ []) = 0 < r.length
IsRuns (r ∷ s ∷ rs) = (0 < r.length) × (r.color_index ≢ s.color_index) × IsRuns (s ∷ rs)

replicate_snoc : (n c : ℕ) → replicate (n + 1) c ≡ replicate n c ++ c ∷ []
replicate_snoc zero c = refl
replicate_snoc (suc n) c =
    let e : suc n + 1 ≡ suc (n + 1) = omega arith in rw e (ap (◌∷◌ c) (replicate_snoc n c))

pub expand-push_pixel : (c : ℕ) (rs : List Rect) → expand (push_pixel c rs) ≡ expand rs ++ c ∷ []
unfolding push_pixel
expand-push_pixel c [] = refl
expand-push_pixel c (r ∷ []) = elim (Bool-cases (r.color_index == c)) [
  | inl same ↦
      let e : r.color_index ≡ c = (==_iff _ _).0 same in
      rw same (simp (append-nil, replicate_snoc) (rw e refl))
  | inr other ↦ rw other (simp append-nil)
]
expand-push_pixel c (r ∷ s ∷ rs) = simp (expand-push_pixel c (s ∷ rs), append_assoc)

pub push_pixel-IsRuns : (c : ℕ) (rs : List Rect) → IsRuns rs → IsRuns (push_pixel c rs)
unfolding push_pixel
push_pixel-IsRuns c [] h = omega arith
push_pixel-IsRuns c (r ∷ []) h = ground arith
push_pixel-IsRuns c (r ∷ s ∷ []) (p, d, h) = ground arith
push_pixel-IsRuns c (r ∷ s ∷ t ∷ rs) (p, d, h) = (p, d, push_pixel-IsRuns c (s ∷ t ∷ rs) h)

-- All pixels of a row appended.
abbrev pub push_all : List ℕ → List Rect → List Rect
push_all [] rs = rs
push_all (c ∷ cs) rs = push_all cs (push_pixel c rs)

pub expand-push_all : (cs : List ℕ) (rs : List Rect) → expand (push_all cs rs) ≡ expand rs ++ cs
expand-push_all [] rs = sym (append-nil (expand rs))
expand-push_all (c ∷ cs) rs =
    expand-push_all cs (push_pixel c rs) ∙ simp (expand-push_pixel c rs, append_assoc)

pub push_all-IsRuns : (cs : List ℕ) (rs : List Rect) → IsRuns rs → IsRuns (push_all cs rs)
push_all-IsRuns [] rs h = h
push_all-IsRuns (c ∷ cs) rs h = push_all-IsRuns cs (push_pixel c rs) (push_pixel-IsRuns c rs h)

-- A row of `w` pixels whose first run fills it with index 0 is blank.
pub expand-is_empty_row :
    (w : ℕ) (rs : List Rect)
    → length (expand rs) ≡ w
    → is_empty_row w (first_rect rs) ≡ true
    → expand rs ≡ replicate w 0
unfolding is_empty_row
expand-is_empty_row w [] n h = cc
expand-is_empty_row w (r ∷ rs) n h =
    let full : r.length ≡ w = ground arith in
    let blank : r.color_index ≡ 0 = ground arith in
    let rest : expand rs ≡ [] = nil_of_length (expand rs) (
      omega (
        arith,
        length-append {0} (replicate r.length r.color_index) (expand rs),
        length-replicate {0} r.length r.color_index,
      )) in
    rw (rest, full, blank) (append-nil (replicate w 0))
