-- ===== src/Sdk/Glasses/Drawn.antt =====
-- Encoded glasses, decoded and drawn: `toGlassesRLE` (packages/nouns-sdk/src/image/image.ts), then
-- `buildSVG` (svg-builder.ts).
use sznouns.Prelude.{
  ℕ, ◌+◌, ◌<◌, ◌≤◌, ◌≡◌, refl, ap, ◌∙◌, Bool, true, ◌&&◌, some, List, [], ◌∷◌, ◌++◌, map, arith,
  length, ltb, if◌then◌else◌, Text, text_eq, Bool-cases, inl, inr, get_elem?, get_elem?-lt,
}
use sznouns.Sdk.Palette.{Palette, color_get, color_keys}
use sznouns.Sdk.Palette.Laws.{IsIndexed, length-color_keys}
use sznouns.Sdk.Svg.{
  Number, NumberBounds, Element, rect, circle, path, draw_shape, draw_shapes, draw_rects,
}
use sznouns.Sdk.Glasses.{Shape, shape_index, clear_color}
use sznouns.Sdk.Glasses.Pushed.{HasColors, shape_numbers}

-- The color that a shape shows: a transparent trait has the palette's first entry, the empty text.
unfoldable pub shown : Bool → Text → Text
shown t color = if t && text_eq color clear_color then [] else color

-- The element for a shape, at its place: two rectangles, two circles, then paths or rectangles.
unfoldable pub element : Bool → ℕ → Bool → Shape → Element
element half_moon idx t s =
    let params = some s.a ∷ some s.b ∷ some s.c ∷ some s.d ∷ [] in
    if ltb idx 2
    then rect params (some (shown t s.color))
    else if ltb idx 4
    then circle params (some (shown t s.color))
    else if half_moon
    then path params (some (shown t s.color))
    else rect params (some (shown t s.color))

unfoldable pub elements : Bool → ℕ → Bool → List Shape → List Element
elements half_moon idx t [] = []
elements half_moon idx t (s ∷ shapes) =
    element half_moon idx t s ∷ elements half_moon (idx + 1) t shapes

pub key_below :
    (q : Palette) (k : Text) (i : ℕ) → IsIndexed q → color_get k q ≡ some i → i < length q
key_below q k i h e =
    omega (arith, length-color_keys q, get_elem?-lt (color_keys q) i (h.key_at k i e))

-- A palette as `encodeGlasses` leaves it.
pub record Ready (q : Palette) : Type 0 where
  pub indexed : IsIndexed q
  pub transparent : color_get [] q ≡ some 0
  pub small : length q ≤ 256

shown-get :
    (q : Palette) (t : Bool) (color : Text)
    → Ready q
    → (i : ℕ) × (color_get color q ≡ some i)
    → get_elem? (color_keys q) (shape_index t color q) ≡ some (shown t color)
unfolding shown
shown-get q t color r (i, e) =
    let first = r.indexed.key_at [] 0 r.transparent in
    let at = r.indexed.key_at color i e in
    elim (Bool-cases (t && text_eq color clear_color)) [
      | inl h ↦ rw (h) first
      | inr h ↦ rw (h, e) at
    ]

pub draw_shapes-elements :
    (q : Palette) (half_moon : Bool) (idx : ℕ) (t : Bool) (shapes : List Shape)
    → Ready q
    → HasColors q shapes
    → draw_shapes
        (color_keys q)
        (some (if half_moon then 1 else 0))
        idx
        (map (shape_numbers q t) shapes)
      ≡ elements half_moon idx t shapes
unfolding draw_shapes elements element
draw_shapes-elements q half_moon idx t [] r has = refl
draw_shapes-elements q half_moon idx t (s ∷ shapes) r (here, has) =
    rw (shown-get q t s.color r here, draw_shapes-elements q half_moon (idx + 1) t shapes r has)
      (ap (λ e. e ∷ elements half_moon (idx + 1) t shapes) (ground arith))

pub draw_shapes-append :
    (colors : List Text) (half_moon : Number) (idx : ℕ) (xs ys : List (List Number))
    → draw_shapes colors half_moon idx (xs ++ ys)
      ≡ draw_shapes colors half_moon idx xs ++ draw_shapes colors half_moon (idx + length xs) ys
unfolding draw_shapes
draw_shapes-append colors half_moon idx [] ys =
    ap (λ n. draw_shapes colors half_moon n ys) (omega arith)
draw_shapes-append colors half_moon idx (x ∷ xs) ys =
    let same : idx + 1 + length xs ≡ idx + length (x ∷ xs) = omega arith in
    ap (◌∷◌ (draw_shape colors half_moon idx x)) (
      draw_shapes-append colors half_moon (idx + 1) xs ys
      ∙ ap (λ n. draw_shapes colors half_moon (idx + 1) xs ++ draw_shapes colors half_moon n ys)
          same)

-- No runs of glasses are drawn.
pub draw_rects_glasses :
    (colors : List Text) (b : NumberBounds) (rects : List (Number × Number)) (x y : Number)
    → draw_rects colors true b x y rects ≡ []
unfolding draw_rects
draw_rects_glasses colors b [] x y = refl
draw_rects_glasses colors b ((n, c) ∷ rects) x y = draw_rects_glasses colors b rects _ _
