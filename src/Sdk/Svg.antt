-- ===== src/Sdk/Svg.antt =====
-- The SVG builder (packages/nouns-sdk/src/image/svg-builder.ts): run-length data is decoded and
-- drawn as rectangles, circles and paths. Drawn elements are values, which `Svg.Print` prints.
pub mod Print
pub mod Decode
pub mod Paint
use sznouns.Prelude.{
  ℕ, ◌+◌, Bool, true, false, not, ◌&&◌, Option, none, some, List, [], ◌∷◌, ◌++◌, map, ltb, ◌==◌,
  if◌then◌else◌, get_elem?, take, drop, Text, codes, starts_with,
}
use sznouns.Sdk.Hex.{parse_hex, chunks}

-- A number that `parseInt` returns, or a sum of such: `none` is NaN.
abbrev pub Number : Type 0
Number = Option ℕ

-- `a === b`, which NaN never is.
abbrev pub number_eq : Number → Number → Bool
number_eq none b = false
number_eq (some a) none = false
number_eq (some a) (some b) = a == b

abbrev pub number_add : Number → Number → Number
number_add none b = none
number_add (some a) none = none
number_add (some a) (some b) = some (a + b)

-- Whether a number is truthy.
abbrev pub truthy : Number → Bool
truthy none = false
truthy (some n) = not (n == 0)

pub record NumberBounds : Type 0 where
  pub top : Number
  pub right : Number
  pub bottom : Number
  pub left : Number

pub record DecodedImage : Type 0 where
  pub palette_index : Number
  pub bounds : NumberBounds
  pub rects : List (Number × Number)

pub record DecodedGlasses : Type 0 where
  pub palette_index : Number
  pub is_half_moon : Number
  pub shapes : List (List Number)

-- `data.replace(/^0x/, '')`
abbrev pub strip_prefix : Text → Text
strip_prefix (a ∷ b ∷ t) = if (a == 48) && (b == 120) then t else a ∷ b ∷ t
strip_prefix t = t

-- `parseInt(data.substring(from, from + 2), 16)`
abbrev pub byte_at : ℕ → Text → Number
byte_at from t = parse_hex (take 2 (drop from t))

abbrev pub decode_rect : Text → Number × Number
decode_rect t = (byte_at 0 t, byte_at 2 t)

unfoldable pub decode_image : Text → DecodedImage
decode_image image =
    let t = strip_prefix image in
    record {
      palette_index = byte_at 0 t;
      bounds = record {
        top = byte_at 2 t;
        right = byte_at 4 t;
        bottom = byte_at 6 t;
        left = byte_at 8 t;
      };
      rects = map decode_rect (chunks 4 (drop 10 t));
    }

abbrev pub decode_shape : Text → List Number
decode_shape t = map parse_hex (chunks 2 t)

unfoldable pub decode_glasses : Text → DecodedGlasses
decode_glasses image =
    let t = strip_prefix image in
    record {
      palette_index = byte_at 0 t;
      is_half_moon = byte_at 2 t;
      shapes = map decode_shape (chunks 10 (drop 4 t));
    }

-- What `drawRect`, `drawCircle` and `drawPath` are called with; the colour `none` is undefined.
pub data Element : Type 0 where
  rect circle path : List Number → Option Text → Element

-- `paletteColors[i]`
abbrev pub color_at : List Text → Number → Option Text
color_at colors none = none
color_at colors (some i) = get_elem? colors i

-- `paletteColors[shape[0]]`
abbrev pub fill_at : List Text → List Number → Option Text
fill_at colors [] = none
fill_at colors (c ∷ shape) = color_at colors c

-- The body of the loop over the shapes of glasses.
abbrev pub draw_shape : List Text → Number → ℕ → List Number → Element
draw_shape colors half_moon idx shape =
    if ltb idx 2
    then rect (drop 1 shape) (fill_at colors shape)
    else if ltb idx 4
    then circle (drop 1 shape) (fill_at colors shape)
    else if truthy half_moon
    then path (drop 1 shape) (fill_at colors shape)
    else rect (drop 1 shape) (fill_at colors shape)

unfoldable pub draw_shapes : List Text → Number → ℕ → List (List Number) → List Element
draw_shapes colors half_moon idx [] = []
draw_shapes colors half_moon idx (shape ∷ shapes) =
    draw_shape colors half_moon idx shape ∷ draw_shapes colors half_moon (idx + 1) shapes

-- The loop over the runs, at `currentX` and `currentY`.
unfoldable pub draw_rects :
    List Text → Bool → NumberBounds → Number → Number → List (Number × Number) → List Element
draw_rects colors is_glasses b x y [] = []
draw_rects colors is_glasses b x y ((n, c) ∷ rects) =
    let wrapped = number_eq (number_add x n) b.right in
    let rest =
      draw_rects colors is_glasses b (if wrapped then b.left else number_add x n)
        (if wrapped then number_add y (some 1) else y) rects in
    if not is_glasses && not (number_eq c (some 0))
    then rect (n ∷ some 1 ∷ x ∷ y ∷ []) (color_at colors c) ∷ rest
    else rest

pub record EncodedImage : Type 0 where
  pub filename : Text
  pub text : Text

-- The elements of one part, in the order of drawing.
unfoldable pub draw_part : List Text → EncodedImage → List Element
unfolding decode_image decode_glasses draw_shapes draw_rects
draw_part colors part =
    let is_glasses = starts_with (codes "glasses") part.filename in
    let image = decode_image part.text in
    let glasses = decode_glasses part.text in
    let runs =
      draw_rects colors is_glasses image.bounds image.bounds.left image.bounds.top image.rects in
    if is_glasses then draw_shapes colors glasses.is_half_moon 0 glasses.shapes ++ runs else runs
