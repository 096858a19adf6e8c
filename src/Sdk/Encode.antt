-- ===== src/Sdk/Encode.antt =====
-- The loops and the text of `encode` in the class `Image`
-- (packages/nouns-sdk/src/image/image.ts): bounds and rows as hexadecimal bytes.
pub mod Loops
pub mod Colors
pub mod Slices
use sznouns.Prelude.{
  ℕ, zero, suc, ◌+◌, ◌-◌, ◌*◌, ◌%◌, min, max, ◌&&◌, Option, none, some, List, [], ◌∷◌, ◌++◌, map,
  ltb, ◌==◌, if◌then◌else◌, length, Text, codes,
}
use sznouns.Sdk.Hex.{to_padded_hex, rgb_to_hex, hex_bytes}
use sznouns.Sdk.Palette.{Palette, color_get, color_ensure}
use sznouns.Sdk.Image.{
  Rect, ImageRow, ImageBounds, Image, RgbaColor, Pixels, rows_get, rows_values,
  append_pixel_to_rect, update_image_bounds, delete_empty_rows, is_empty_row, first_rect,
}

unfoldable pub get_encoded_bounds : ImageBounds → Text
get_encoded_bounds b =
    codes "0x00"
    ++ (to_padded_hex b.top 2
        ++ (to_padded_hex b.right 2 ++ (to_padded_hex b.bottom 2 ++ to_padded_hex b.left 2)))

-- `Buffer.from` keeps a number modulo 256; a difference that may be negative is taken so at once.
abbrev pub byte_sub : ℕ → ℕ → ℕ
byte_sub a b = (a + 255 * b) % 256

-- The numbers of the runs behind the first one.
unfoldable pub encode_later_rects : ℕ → ImageBounds → List Rect → List ℕ
encode_later_rects width b [] = []
encode_later_rects width b (r ∷ []) =
    let margin = width - b.right in
    if ltb margin r.length
    then (r.length - margin) ∷ r.color_index ∷ []
    else if r.length == margin
    then []
    else r.length ∷ r.color_index ∷ []
encode_later_rects width b (r ∷ s ∷ rs) =
    r.length ∷ r.color_index ∷ encode_later_rects width b (s ∷ rs)

-- The numbers of all runs of a row, the first and the last cut at the bounds.
unfoldable pub encode_rects : ℕ → ImageBounds → List Rect → List ℕ
encode_rects width b [] = []
encode_rects width b (r ∷ []) = byte_sub b.right b.left ∷ r.color_index ∷ []
encode_rects width b (r ∷ s ∷ rs) =
    let later = encode_later_rects width b (s ∷ rs) in
    if ltb b.left r.length
    then (r.length - b.left) ∷ r.color_index ∷ later
    else if r.length == b.left
    then later
    else r.length ∷ r.color_index ∷ later

abbrev pub to_byte : ℕ → ℕ
to_byte n = n % 256

unfoldable pub get_encoded_row : ℕ → ImageBounds → ImageRow → Text
unfolding encode_rects encode_later_rects
get_encoded_row width b row = hex_bytes (map to_byte (encode_rects width b row.rects))

-- The `reduce` over the rows.
unfoldable pub encode_all_rows : ℕ → ImageBounds → Text → List ImageRow → Text
encode_all_rows width b result [] = result
encode_all_rows width b result (row ∷ rows) =
    encode_all_rows width b (result ++ get_encoded_row width b row) rows

-- `Math.min(...)` and `Math.max(...)` of at least one row.
abbrev pub min_left : List ImageRow → ℕ
min_left [] = 0
min_left (row ∷ []) = row.bounds.left
min_left (row ∷ row' ∷ rows) = min row.bounds.left (min_left (row' ∷ rows))

abbrev pub max_right : List ImageRow → ℕ
max_right [] = 0
max_right (row ∷ rows) = max row.bounds.right (max_right rows)

-- The colour index of a pixel, with the palette that has the pixel's colour.
abbrev pub index_of : RgbaColor → Palette → ℕ
index_of px colors =
    if px.a == 0
    then 0
    else elim (color_get (rgb_to_hex px.r px.g px.b) colors) [ none ↦ 0 | some i ↦ i ]

-- The inner loop of `encode`, over the `todo` columns from `x` on.
unfoldable pub encode_pixels : Pixels → ℕ → ℕ → ℕ → Image → Palette → Image × Palette
encode_pixels rgba_at zero x y img colors = (img, colors)
encode_pixels rgba_at (suc todo) x y img colors =
    let px = rgba_at x y in
    let colors' = color_ensure (rgb_to_hex px.r px.g px.b) colors in
    encode_pixels rgba_at todo (x + 1) y (append_pixel_to_rect (index_of px colors') y img) colors'

-- The outer loop, over the `todo` rows from `y` on.
unfoldable pub encode_rows : Pixels → ℕ → ℕ → Image → Palette → Image × Palette
encode_rows rgba_at zero y img colors = (img, colors)
encode_rows rgba_at (suc todo) y img colors =
    let (img', colors') = encode_pixels rgba_at img.width 0 y img colors in
    encode_rows rgba_at todo (y + 1) (update_image_bounds y img') colors'

abbrev pub rects_of : Option ImageRow → List Rect
rects_of none = []
rects_of (some row) = row.rects

-- From the left and right bounds on: `encode` after its loops.
unfoldable pub finish : Image → Image × Text
unfolding get_encoded_bounds get_encoded_row encode_all_rows rows_values
finish img =
    let values = rows_values img.rows in
    let bounds =
      if length values == 0
      then img.bounds
      else record img.bounds { left = min_left values; right = max_right values } in
    let img' = record img { bounds = bounds } in
    if (length values == 1) && is_empty_row img.width (first_rect (rects_of (rows_get 0 img.rows)))
    then (img', codes "0x0000000000")
    else (img', encode_all_rows img.width bounds (get_encoded_bounds bounds) values)

unfoldable pub encode : Pixels → Image → Palette → Image × Palette × Text
unfolding encode_rows encode_pixels delete_empty_rows finish
encode rgba_at img colors =
    let (img', colors') = encode_rows rgba_at img.height 0 img colors in
    let (img'', text) = finish (delete_empty_rows img') in (img'', colors', text)

-- `toRLE`: encoded once, then kept.
unfoldable pub to_rle : Pixels → Image → Palette → Image × Palette × Text
unfolding encode
to_rle rgba_at img colors = elim img.rle [
  | none ↦
      let (img', colors', text) = encode rgba_at img colors in
      (record img' { rle = some text }, colors', text)
  | some [] ↦
      let (img', colors', text) = encode rgba_at img colors in
      (record img' { rle = some text }, colors', text)
  | some (c ∷ text) ↦ (img, colors, c ∷ text)
]
