-- ===== src/Sdk/Svg/Paint.antt =====
-- What the drawn runs of an image look like (packages/nouns-sdk/src/image/svg-builder.ts): the colour
-- of a pixel is that of the last rectangle over it.
use sznouns.Prelude.{
  ℕ, zero, suc, ◌+◌, ◌-◌, ◌<◌, ◌≤◌, ◌≡◌, refl, sym, ap, ◌∙◌, Bool, true, false, not, ◌&&◌, Option,
  none, some, List, [], ◌∷◌, ◌++◌, map, arith, ltb, leb, ◌==◌, if◌then◌else◌, Text, length,
  length-append, replicate, length-replicate, get_elem?, get_elem?-append_left,
  get_elem?-append_right, get_elem?-replicate, Bool-cases, inl, inr, All,
}
use sznouns.Sdk.Image.{Rect, ImageBounds}
use sznouns.Sdk.Image.Runs.{expand}
use sznouns.Sdk.Encode.Slices.{Positive}
use sznouns.Sdk.Svg.{Element, rect, draw_rects}
use sznouns.Sdk.Svg.Decode.{numbers_of, number_bounds}

-- Whether an element is a rectangle over the pixel, and then its colour; circles and paths do not
-- stand in the runs of an image.
abbrev pub covers : ℕ → ℕ → ℕ → ℕ → ℕ → ℕ → Bool
covers n h x y px py = (leb x px && ltb px (x + n)) && (leb y py && ltb py (y + h))

abbrev pub fill_over : ℕ → ℕ → Element → Option (Option Text)
fill_over px py (rect (some n ∷ some h ∷ some x ∷ some y ∷ []) fill) =
    if covers n h x y px py then some fill else none
fill_over px py e = none

abbrev pub or_else {ℓ} : {A : Type ℓ} → Option A → Option A → Option A
or_else none d = d
or_else (some a) d = some a

or_else-none {ℓ} : {A : Type ℓ} (a : Option A) → a ≡ or_else a none
or_else-none none = refl
or_else-none (some a) = refl

or_else_unless {ℓ} :
    {A : Type ℓ} (t : Bool) (a : Option A) → a ≡ or_else (if t then none else none) a
or_else_unless true a = refl
or_else_unless false a = refl

or_else_assoc {ℓ} :
    {A : Type ℓ} (a b c : Option A) → or_else (or_else a b) c ≡ or_else a (or_else b c)
or_else_assoc none b c = refl
or_else_assoc (some a) b c = refl

-- The colour at a pixel: `none` where nothing is drawn.
unfoldable pub painted : ℕ → ℕ → List Element → Option (Option Text)
painted px py [] = none
painted px py (e ∷ es) = or_else (painted px py es) (fill_over px py e)

-- The rows of runs one after the other, each `width` pixels wide, from `y` on.
abbrev pub flatten_rows : List (List Rect) → List Rect
flatten_rows [] = []
flatten_rows (rs ∷ rows) = rs ++ flatten_rows rows

-- Row `i` of the drawing shows the pixels of the row `i` of runs.
abbrev pub pixel_of : List (List Rect) → ℕ → ℕ → Option ℕ
pixel_of [] j i = none
pixel_of (rs ∷ rows) zero i = get_elem? (expand rs) i
pixel_of (rs ∷ rows) (suc j) i = pixel_of rows j i

-- What is to be seen at a pixel of colour index `c`.
abbrev pub shown : List Text → Option ℕ → Option (Option Text)
shown colors none = none
shown colors (some c) = if c == 0 then none else some (get_elem? colors c)

get_elem?-run :
    (n c : ℕ) (cs : List ℕ) (i : ℕ)
    → get_elem? (replicate n c ++ cs) i ≡ (if ltb i n then some c else get_elem? cs (i - n))
get_elem?-run n c cs i = elim (Bool-cases (ltb i n)) [
  | inl in_run ↦
      let lt : i < n = ground arith in
      rw in_run (
        get_elem?-append_left (replicate n c) cs i (omega (arith, length-replicate {0} n c))
        ∙ get_elem?-replicate n c i lt)
  | inr behind ↦
      let le : n ≤ i = ground arith in
      rw behind (
        get_elem?-append_right (replicate n c) cs i (omega (arith, length-replicate {0} n c))
        ∙ ap (λ k. get_elem? cs (i - k)) (length-replicate n c))
]

pixel_cases {ℓ} :
    {A : Type ℓ} (n x y px py : ℕ) (run : Option A) (look : Option ℕ → Option A)
    (behind here : Option ℕ)
    → look here ≡ run
    → or_else
        (if (py == y) && leb (x + n) px then look behind else none)
        (if covers n 1 x y px py then run else none)
      ≡ (if (py == y) && leb x px then look (if ltb (px - x) n then here else behind) else none)
pixel_cases n x y px py run look behind here same = elim (Bool-cases (py == y)) [
  | inr other ↦ let out : covers n 1 x y px py ≡ false = ground arith in rw (out, other)
  | inl at ↦ elim (Bool-cases (leb x px)) [
    | inr left ↦
        let out : covers n 1 x y px py ≡ false = ground arith in
        let far : leb (x + n) px ≡ false = ground arith in rw (out, far, at, left)
    | inl right ↦ elim (Bool-cases (ltb (px - x) n)) [
      | inl in_run ↦
          let over : covers n 1 x y px py ≡ true = ground arith in
          let far : leb (x + n) px ≡ false = ground arith in
          rw (over, far, at, right, in_run) (sym same)
      | inr past ↦
          let out : covers n 1 x y px py ≡ false = ground arith in
          let far : leb (x + n) px ≡ true = ground arith in
          rw (out, far, at, right, past) (sym (or_else-none (look behind)))
    ]
  ]
]

-- What a row shows, once its first run is over the pixel or not.
row_pixel :
    (colors : List Text) (n c : ℕ) (cs : List ℕ) (x y px py : ℕ)
    → or_else
        (if (py == y) && leb (x + n) px then shown colors (get_elem? cs (px - (x + n))) else none)
        (if covers n 1 x y px py then shown colors (some c) else none)
      ≡ (if (py == y) && leb x px
          then shown colors (get_elem? (replicate n c ++ cs) (px - x))
          else none)
row_pixel colors n c cs x y px py =
    let e : px - x - n ≡ px - (x + n) = omega arith in
    rw (get_elem?-run n c cs (px - x), e)
      (pixel_cases n x y px py (shown colors (some c)) (λ o. shown colors o)
        (get_elem? cs (px - (x + n))) (some c) refl)

module _ (colors : List Text) (b : ImageBounds) (sides : b.left < b.right) where
  abbrev pub draw_from : ℕ → ℕ → List Rect → List Element
  draw_from x y rs = draw_rects colors false (number_bounds b) (some x) (some y) (map numbers_of rs)

  -- A run is drawn, and drawing goes on behind it or in the next row.
  draw_run :
      (x y : ℕ) (r : Rect) (rs : List Rect) (px py : ℕ)
      → painted px py (draw_from x y (r ∷ rs))
        ≡ or_else
            (painted px py (
              if x + r.length == b.right
              then draw_from b.left (y + 1) rs
              else draw_from (x + r.length) y rs))
            (if covers r.length 1 x y px py then shown colors (some r.color_index) else none)
  unfolding painted draw_rects
  draw_run x y r rs px py = elim (Bool-cases (x + r.length == b.right)) [
    | inl e ↦ rw e (draw_or_skip _ (r.color_index == 0))
    | inr e ↦ rw e (draw_or_skip _ (r.color_index == 0))
  ]
    where
      draw_or_skip :
          (es : List Element) (blank : Bool)
          → painted px py (
              if not blank
              then rect
                  (some r.length ∷ some 1 ∷ some x ∷ some y ∷ [])
                  (get_elem? colors r.color_index)
                ∷ es
              else es)
            ≡ or_else (painted px py es) (
                if covers r.length 1 x y px py
                then (if blank then none else some (get_elem? colors r.color_index))
                else none)
      draw_or_skip es true =
          elim (covers r.length 1 x y px py)
            as (λ v. painted px py es ≡ or_else (painted px py es) (if v then none else none)) [
              | true ↦ or_else-none (painted px py es)
              | false ↦ or_else-none (painted px py es)
            ]
      draw_or_skip es false = refl

  abbrev row_shows : List Rect → ℕ → ℕ → ℕ → ℕ → Option (Option Text)
  row_shows rs x y px py =
      if (py == y) && leb x px then shown colors (get_elem? (expand rs) (px - x)) else none

  abbrev run_shows : Rect → ℕ → ℕ → ℕ → ℕ → Option (Option Text)
  run_shows r x y px py =
      if covers r.length 1 x y px py then shown colors (some r.color_index) else none

  row_of_length : (rs : List Rect) → Positive rs → length (expand rs) ≡ 0 → rs ≡ []
  row_of_length [] p e = refl
  row_of_length (r ∷ rs) (p, q) e = absurd (
      omega (
        arith,
        length-append {0} (replicate r.length r.color_index) (expand rs),
        length-replicate {0} r.length r.color_index,
      ))

  -- The rest of a row from `x` on, and then what comes below.
  draw_row :
      (x y : ℕ) (rs rest : List Rect) (px py : ℕ)
      → Positive rs
      → x < b.right
      → x + length (expand rs) ≡ b.right
      → painted px py (draw_from x y (rs ++ rest))
        ≡ or_else
            (painted px py (draw_from b.left (y + 1) rest))
            (if (py == y) && leb x px then shown colors (get_elem? (expand rs) (px - x)) else none)
  draw_row x y [] rest px py p lt e = absurd (omega arith)
  draw_row x y (r ∷ rs) rest px py (p, q) lt e =
      let total =
        length-append (replicate r.length r.color_index) (expand rs)
        ∙ ap (λ k. k + length (expand rs)) (length-replicate r.length r.color_index) in
      elim (Bool-cases (x + r.length == b.right)) [
        | inl end ↦
            let none_left : rs ≡ [] = row_of_length rs q (ground (arith, total)) in
            draw_run x y r (rs ++ rest) px py
            ∙ rw (end, none_left)
                (ap (or_else (painted px py (draw_from b.left (y + 1) rest))) (
                  or_else_unless ((py == y) && leb (x + r.length) px) _
                  ∙ row_pixel colors r.length r.color_index [] x y px py))
        | inr more ↦
            draw_run x y r (rs ++ rest) px py
            ∙ rw
                (
                  more,
                  draw_row (x + r.length) y rs rest px py q (ground (arith, total))
                      (omega (arith, total)),
                )
                (or_else_assoc (painted px py (draw_from b.left (y + 1) rest))
                    (row_shows rs (x + r.length) y px py) (run_shows r x y px py)
                  ∙ ap (or_else (painted px py (draw_from b.left (y + 1) rest)))
                      (row_pixel colors r.length r.color_index (expand rs) x y px py))
      ]

  abbrev pub IsRow : List Rect → Type 0
  IsRow rs = Positive rs × (length (expand rs) ≡ b.right - b.left)

  -- Whether a row is the first one or a later one.
  rows_cases :
      (y : ℕ) (rs : List Rect) (rows : List (List Rect)) (px py : ℕ)
      → or_else
          (if leb (y + 1) py && leb b.left px
            then shown colors (pixel_of rows (py - (y + 1)) (px - b.left))
            else none)
          (row_shows rs b.left y px py)
        ≡ (if leb y py && leb b.left px
            then shown colors (pixel_of (rs ∷ rows) (py - y) (px - b.left))
            else none)
  rows_cases y rs rows px py = elim (Bool-cases (py == y)) [
    | inl at ↦
        let later : leb (y + 1) py ≡ false = ground arith in
        let from : leb y py ≡ true = ground arith in
        let first : py - y ≡ 0 = ground arith in rw (later, from, at, first)
    | inr other ↦ elim (Bool-cases (leb y py)) [
      | inr above ↦ let later : leb (y + 1) py ≡ false = ground arith in rw (later, above, other)
      | inl below ↦
          let later : leb (y + 1) py ≡ true = ground arith in
          let next : py - y ≡ suc (py - (y + 1)) = ground arith in
          rw (later, below, other, next) (sym (or_else-none _))
    ]
  ]

  pub draw_rows :
      (y : ℕ) (rows : List (List Rect)) (px py : ℕ)
      → All IsRow rows
      → painted px py (draw_from b.left y (flatten_rows rows)) ≡ (
          if leb y py && leb b.left px
          then shown colors (pixel_of rows (py - y) (px - b.left))
          else none)
  unfolding painted draw_rects
  draw_rows y [] px py h =
      or_else_unless (leb y py && leb b.left px) none
      ∙ sym (or_else-none (if leb y py && leb b.left px then none else none))
  draw_rows y (rs ∷ rows) px py ((p, n), h) =
      draw_row b.left y rs (flatten_rows rows) px py p sides (omega arith)
      ∙ (ap (λ es. or_else es (row_shows rs b.left y px py)) (draw_rows (y + 1) rows px py h)
          ∙ rows_cases y rs rows px py)
