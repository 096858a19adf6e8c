-- ===== src/Sdk/Encode/Slices.antt =====
-- The numbers of an encoded row (packages/nouns-sdk/src/image/image.ts, `getEncodedRow`): they are
-- the runs of the row's pixels between the left and the right bound.
use sznouns.Prelude.{
  ℕ, ◌+◌, ◌-◌, ◌<◌, ◌≤◌, ◌≡◌, refl, sym, ap, ◌∙◌, List, [], ◌∷◌, ◌++◌, append-nil, append_assoc,
  arith, ◌==◌, if◌then◌else◌, length, length-append, replicate, length-replicate, replicate-add,
  Bool-cases, inl, inr, All, nil_of_length,
}
use sznouns.Sdk.Image.{Rect, ImageBounds, first_rect, last_rect, length_of}
use sznouns.Sdk.Image.Runs.{expand, IsRuns}
use sznouns.Sdk.Encode.{encode_rects, encode_later_rects, byte_sub}

-- Runs as the numbers of the encoding.
abbrev pub flat : List Rect → List ℕ
flat [] = []
flat (r ∷ rs) = r.length ∷ r.color_index ∷ flat rs

abbrev run : ℕ → ℕ → Rect
run n c = record { length = n; color_index = c }

-- The runs of which `encode_rects` gives the numbers.
cut_later : ℕ → List Rect → List Rect
cut_later margin [] = []
cut_later margin (r ∷ []) =
    if r.length == margin then [] else run (r.length - margin) r.color_index ∷ []
cut_later margin (r ∷ s ∷ rs) = r ∷ cut_later margin (s ∷ rs)

pub cut : ℕ → ImageBounds → List Rect → List Rect
unfolding cut_later
cut w b [] = []
cut w b (r ∷ []) = run (b.right - b.left) r.color_index ∷ []
cut w b (r ∷ s ∷ rs) =
    let later = cut_later (w - b.right) (s ∷ rs) in
    if r.length == b.left then later else run (r.length - b.left) r.color_index ∷ later

encode_later_rects-flat :
    (w : ℕ) (b : ImageBounds) (rs : List Rect)
    → w - b.right ≤ length_of (last_rect rs)
    → encode_later_rects w b rs ≡ flat (cut_later (w - b.right) rs)
unfolding encode_later_rects cut_later
encode_later_rects-flat w b [] h = refl
encode_later_rects-flat w b (r ∷ []) h = ground arith
encode_later_rects-flat w b (r ∷ s ∷ rs) h =
    ap (λ ns. r.length ∷ r.color_index ∷ ns) (encode_later_rects-flat w b (s ∷ rs) h)

-- The bounds fit a row: they lie in the image and cut no more than the outer runs.
pub record Fits (w : ℕ) (b : ImageBounds) (rs : List Rect) : Type 0 where
  pub width : w < 256
  pub sides : b.left < b.right
  pub inside : b.right ≤ w
  pub first : b.left ≤ length_of (first_rect rs)
  pub last : w - b.right ≤ length_of (last_rect rs)

pub encode_rects-flat :
    (w : ℕ) (b : ImageBounds) (rs : List Rect)
    → Fits w b rs
    → encode_rects w b rs ≡ flat (cut w b rs)
unfolding encode_rects cut
encode_rects-flat w b [] h = refl
encode_rects-flat w b (r ∷ []) h =
    let same : byte_sub b.right b.left ≡ b.right - b.left = omega arith in
    ap (λ n. n ∷ r.color_index ∷ []) same
encode_rects-flat w b (r ∷ s ∷ rs) h = ground (arith, encode_later_rects-flat w b (s ∷ rs))

-- Pixels `cs` are `inner` between `pre` pixels in front and `post` behind.
pub record Window (pre post : ℕ) (cs inner : List ℕ) : Type 0 where
  pub before : List ℕ
  pub after : List ℕ
  pub length_before : length before ≡ pre
  pub length_after : length after ≡ post
  pub parts : cs ≡ before ++ (inner ++ after)

-- A run of which `m` pixels are cut, and which is left out if nothing remains.
expand_kept :
    (n m c : ℕ) (later : List Rect)
    → expand (if n == m then later else run (n - m) c ∷ later) ≡ replicate (n - m) c ++ expand later
expand_kept n m c later = elim (Bool-cases (n == m)) [
  | inl same ↦ let e : n - m ≡ 0 = ground arith in rw (same, e)
  | inr other ↦ rw other
]

replicate_split : (n m c : ℕ) → m ≤ n → replicate n c ≡ replicate m c ++ replicate (n - m) c
replicate_split n m c h =
    let e : n ≡ m + (n - m) = omega arith in ap (λ k. replicate k c) e ∙ replicate-add m (n - m) c

replicate_split_end : (n m c : ℕ) → m ≤ n → replicate n c ≡ replicate (n - m) c ++ replicate m c
replicate_split_end n m c h =
    let e : n ≡ n - m + m = omega arith in ap (λ k. replicate k c) e ∙ replicate-add (n - m) m c

expand-cut_later :
    (margin : ℕ) (rs : List Rect)
    → margin ≤ length_of (last_rect rs)
    → Window 0 margin (expand rs) (expand (cut_later margin rs))
unfolding cut_later
expand-cut_later margin [] h = record {
  before = [];
  after = [];
  length_before = refl;
  length_after = omega arith;
  parts = refl;
}
expand-cut_later margin (r ∷ []) h = record {
  before = [];
  after = replicate margin r.color_index;
  length_before = refl;
  length_after = length-replicate margin r.color_index;
  parts =
      rw (expand_kept r.length margin r.color_index [])
        (simp append-nil (replicate_split_end r.length margin r.color_index h));
}
expand-cut_later margin (r ∷ s ∷ rs) h =
    let later = expand-cut_later margin (s ∷ rs) h in
    let none_before : later.before ≡ [] = nil_of_length later.before later.length_before in
    record {
      before = [];
      after = later.after;
      length_before = refl;
      length_after = later.length_after;
      parts =
          ap (λ cs. replicate r.length r.color_index ++ cs)
            (later.parts
              ∙ ap (λ cs. cs ++ (expand (cut_later margin (s ∷ rs)) ++ later.after)) none_before)
          ∙ sym (
              append_assoc (replicate r.length r.color_index) (expand (cut_later margin (s ∷ rs)))
                later.after);
    }

cut_single :
    (w : ℕ) (b : ImageBounds) (r : Rect)
    → Fits w b (r ∷ [])
    → length (expand (r ∷ [])) ≡ w
    → Window b.left (w - b.right) (expand (r ∷ [])) (expand (cut w b (r ∷ [])))
unfolding cut
cut_single w b r h n =
    let c = r.color_index in
    let full : r.length ≡ w =
      omega
        (arith, length-append {0} (replicate r.length c) [], length-replicate {0} r.length c, n) in
    record {
      before = replicate b.left c;
      after = replicate (w - b.right) c;
      length_before = length-replicate b.left c;
      length_after = length-replicate (w - b.right) c;
      parts =
          append-nil (replicate r.length c)
          ∙ (ap (λ k. replicate k c) full
              ∙ (replicate_split w b.left c (omega arith)
                  ∙ ap (λ cs. replicate b.left c ++ cs)
                      (replicate_split_end (w - b.left) (w - b.right) c (omega arith)
                        ∙ (ap (λ k. replicate k c ++ replicate (w - b.right) c)
                              (let e : w - b.left - (w - b.right) ≡ b.right - b.left =
                                  omega arith in
                                e)
                            ∙ ap (λ cs. cs ++ replicate (w - b.right) c)
                                (sym (append-nil (replicate (b.right - b.left) c)))))));
    }

cut_many :
    (w : ℕ) (b : ImageBounds) (r s : Rect) (rs : List Rect)
    → Fits w b (r ∷ s ∷ rs)
    → Window b.left (w - b.right) (expand (r ∷ s ∷ rs)) (expand (cut w b (r ∷ s ∷ rs)))
unfolding cut
cut_many w b r s rs h =
    let c = r.color_index in
    let later = expand-cut_later (w - b.right) (s ∷ rs) h.last in
    let kept = expand (cut_later (w - b.right) (s ∷ rs)) in
    let none_before : later.before ≡ [] = nil_of_length later.before later.length_before in
    record {
      before = replicate b.left c;
      after = later.after;
      length_before = length-replicate b.left c;
      length_after = later.length_after;
      parts = rw (expand_kept r.length b.left c (cut_later (w - b.right) (s ∷ rs))) (
          ap (λ cs. replicate r.length c ++ cs)
            (later.parts ∙ ap (λ cs. cs ++ (kept ++ later.after)) none_before)
          ∙ (ap (λ cs. cs ++ (kept ++ later.after)) (replicate_split r.length b.left c h.first)
              ∙ simp append_assoc));
    }

pub expand-cut :
    (w : ℕ) (b : ImageBounds) (rs : List Rect)
    → 0 < w
    → Fits w b rs
    → length (expand rs) ≡ w
    → Window b.left (w - b.right) (expand rs) (expand (cut w b rs))
expand-cut w b [] pos h n = absurd (omega arith)
expand-cut w b (r ∷ []) pos h n = cut_single w b r h n
expand-cut w b (r ∷ s ∷ rs) pos h n = cut_many w b r s rs h

-- No run of the cut row is empty.
abbrev pub Positive : List Rect → Type 0
Positive = All (λ r. 0 < r.length)

-- Indices fit a byte.
abbrev pub Indexed : List Rect → Type 0
Indexed = All (λ r. r.color_index < 256)

cut_later-Positive :
    (margin : ℕ) (rs : List Rect)
    → IsRuns rs
    → margin ≤ length_of (last_rect rs)
    → Positive (cut_later margin rs)
unfolding cut_later
cut_later-Positive margin [] p h = tt
cut_later-Positive margin (r ∷ []) p h = elim (Bool-cases (r.length == margin)) [
  | inl same ↦ rw same tt
  | inr other ↦ rw other (let more : 0 < r.length - margin = ground arith in (more, tt))
]
cut_later-Positive margin (r ∷ s ∷ rs) (p, d, q) h = (p, cut_later-Positive margin (s ∷ rs) q h)

pub cut-Positive :
    (w : ℕ) (b : ImageBounds) (rs : List Rect) → IsRuns rs → Fits w b rs → Positive (cut w b rs)
unfolding cut
cut-Positive w b [] p h = tt
cut-Positive w b (r ∷ []) p h = (omega arith, tt)
cut-Positive w b (r ∷ s ∷ rs) (p, d, q) h = elim (Bool-cases (r.length == b.left)) [
  | inl same ↦ rw same (cut_later-Positive (w - b.right) (s ∷ rs) q h.last)
  | inr other ↦
      let more : 0 < r.length - b.left = ground (arith, h.first) in
      rw other (more, cut_later-Positive (w - b.right) (s ∷ rs) q h.last)
]

cut_later-Indexed : (margin : ℕ) (rs : List Rect) → Indexed rs → Indexed (cut_later margin rs)
unfolding cut_later
cut_later-Indexed margin [] p = tt
cut_later-Indexed margin (r ∷ []) (p, q) = elim (Bool-cases (r.length == margin)) [
  | inl same ↦ rw same tt
  | inr other ↦ rw other (p, tt)
]
cut_later-Indexed margin (r ∷ s ∷ rs) (p, q) = (p, cut_later-Indexed margin (s ∷ rs) q)

pub cut-Indexed : (w : ℕ) (b : ImageBounds) (rs : List Rect) → Indexed rs → Indexed (cut w b rs)
unfolding cut
cut-Indexed w b [] p = tt
cut-Indexed w b (r ∷ []) p = p
cut-Indexed w b (r ∷ s ∷ rs) (p, q) = elim (Bool-cases (r.length == b.left)) [
  | inl same ↦ rw same (cut_later-Indexed (w - b.right) (s ∷ rs) q)
  | inr other ↦ rw other (p, cut_later-Indexed (w - b.right) (s ∷ rs) q)
]
