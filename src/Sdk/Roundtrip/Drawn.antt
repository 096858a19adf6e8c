-- ===== src/Sdk/Roundtrip/Drawn.antt =====
-- Encoding and drawing an image with clear edges (packages/nouns-sdk/src/image): `toRLE`, then the loop
-- of `buildSVG` over the part.
use sznouns.Prelude.{
  ℕ, zero, suc, ◌+◌, ◌-◌, ◌<◌, ◌≤◌, ◌≡◌, ap, ◌∙◌, true, false, Bool, ◌&&◌, none, some, List, [],
  ◌++◌, arith, ◌==◌, leb, ltb, if◌then◌else◌, length, get_elem?, get_elem?-lt, Text, codes,
  starts_with, inl, inr, Bool-cases, All,
}
use sznouns.Sdk.Hex.{hex_bytes}
use sznouns.Sdk.Palette.{Palette, color_keys}
use sznouns.Sdk.Palette.Laws.{IsIndexed, length-color_keys}
use sznouns.Sdk.Image.{RgbaColor, Rect, ImageBounds, Pixels}
use sznouns.Sdk.Image.Rows.{enumerate}
use sznouns.Sdk.Image.Runs.{expand}
use sznouns.Sdk.Image.Bounds.{AllBlank}
use sznouns.Sdk.Encode.{get_encoded_bounds, index_of}
use sznouns.Sdk.Encode.Slices.{Fits, flat}
use sznouns.Sdk.Encode.Loops.{pixel_index, row_runs, hex_of, rows_palette-Extends}
use sznouns.Sdk.Encode.Colors.{Has, rows_palette-Has, rows_palette-IsIndexed, index_of_shows}
use sznouns.Sdk.Svg.{Element, DecodedImage, decode_image, draw_part, draw_rects}
use sznouns.Sdk.Svg.Decode.{decode_image-encoded}
use sznouns.Sdk.Svg.Paint.{painted, shown, flatten_rows, draw_rows, pixel_of, IsRow, draw_from}
use sznouns.Sdk.Roundtrip.Rows.{IsBordered, IsPalette, blank_row_pixel, All-enumerate}
use sznouns.Sdk.Roundtrip.Cuts.{
  final_bounds, cut_row, cut_row_shows, cut_row-Positive, length-cut_row, row-Fits,
}
use sznouns.Sdk.Roundtrip.Encoded.{rows-Bytes}
use sznouns.Sdk.Roundtrip.Finished.{final_palette, blank_at}

-- The elements that the runs of a text are drawn as.
abbrev pub drawing : List Text → Text → List Element
drawing colors text =
    let image = decode_image text in
    draw_rects colors false image.bounds image.bounds.left image.bounds.top image.rects

pub draw_part_image :
    (colors : List Text) (name text : Text)
    → starts_with (codes "glasses") name ≡ false
    → draw_part colors (record { filename = name; text = text }) ≡ drawing colors text
unfolding draw_part
draw_part_image colors name text e = rw e

pixel_of-enumerate :
    (f : ℕ → List Rect) (i n j x : ℕ)
    → pixel_of (enumerate f i n) j x ≡ (if ltb j n then get_elem? (expand (f (i + j))) x else none)
pixel_of-enumerate f i zero j x = let out : ltb j 0 ≡ false = ground arith in rw out
pixel_of-enumerate f i (suc n) zero x =
    let from : ltb 0 (suc n) ≡ true = ground arith in
    let at : i + 0 ≡ i = omega arith in rw (from, at)
pixel_of-enumerate f i (suc n) (suc j) x =
    let same : ltb (suc j) (suc n) ≡ ltb j n = ground arith in
    let at : i + 1 + j ≡ i + suc j = omega arith in
    rw (same, ← at) (pixel_of-enumerate f (i + 1) n j x)

pub index_of-lt :
    (px : RgbaColor) (p : Palette)
    → IsIndexed p
    → Has p (hex_of px)
    → length p ≤ 256
    → index_of px p < 256
index_of-lt px p h (i, found) small =
    let lt = get_elem?-lt (color_keys p) i (h.key_at (hex_of px) i found) in
    ground (arith, found, lt, length-color_keys p)

module _ (rgba_at : Pixels) (w h : ℕ) (colors : Palette) (ok : IsBordered rgba_at w h)
    (pal : IsPalette colors) where
  abbrev pub p : Palette
  p = final_palette rgba_at w h colors

  abbrev pub keys : List Text
  keys = color_keys p

  abbrev pub pixel : ℕ → ℕ → ℕ
  pixel x y = pixel_index rgba_at p y x

  abbrev pub blank : ℕ → Bool
  blank = blank_at rgba_at w h colors

  pub Has-color : (x y : ℕ) → x < w → y < h → Has p (hex_of (rgba_at x y))
  Has-color x y lt k =
      let e : 0 + y ≡ y = omega arith in rw e at (rows_palette-Has rgba_at w h 0 colors x y lt k)

  pub final-IsIndexed : IsIndexed p
  final-IsIndexed = rows_palette-IsIndexed rgba_at w h 0 colors pal.indexed

  pub pixel_shows :
      (x y : ℕ)
      → x < w
      → y < h
      → shown keys (some (pixel x y))
        ≡ (if (rgba_at x y).a == 0 then none else some (some (hex_of (rgba_at x y))))
  pixel_shows x y lt k =
      index_of_shows (rgba_at x y) p final-IsIndexed
        (rows_palette-Extends rgba_at w h 0 colors [] 0 pal.transparent) (Has-color x y lt k)

  pub blank_shows : (x y : ℕ) → x < w → blank y ≡ true → none ≡ shown keys (some (pixel x y))
  blank_shows x y lt e =
      let zero_index = blank_row_pixel rgba_at p w ok.wide y x e lt in rw zero_index

  module _ (small : length p ≤ 256) (top bottom : ℕ) (le : top ≤ bottom) (lt : bottom < h)
      (full : blank top ≡ false) (above : AllBlank blank 0 top)
      (below : AllBlank blank (bottom + 1) h) where
    abbrev pub count : ℕ
    count = suc (bottom - top)

    pub some_rows : 0 < count
    some_rows = omega arith

    pub in_image : top + count ≤ h
    in_image = omega arith

    abbrev pub bounds : ImageBounds
    bounds = final_bounds rgba_at p w h ok top count bottom some_rows in_image full

    abbrev pub cut_at : ℕ → List Rect
    cut_at = cut_row rgba_at p w h ok top count bottom some_rows in_image full

    abbrev pub encoded : Text
    encoded =
        get_encoded_bounds bounds ++ hex_bytes (flat (flatten_rows (enumerate cut_at top count)))

    top_Fits : Fits w bounds (row_runs rgba_at p w top)
    top_Fits =
        row-Fits rgba_at p w h ok top count bottom some_rows in_image full top (omega arith)
          (omega arith)

    rows-IsRow : All (IsRow keys bounds top_Fits.sides) (enumerate cut_at top count)
    rows-IsRow = All-enumerate (IsRow keys bounds top_Fits.sides) cut_at top count (λ y from to. (
      cut_row-Positive rgba_at p w h ok top count bottom some_rows in_image full y from to,
      length-cut_row rgba_at p w h ok top count bottom some_rows in_image full y from to,
    ))

    drawing-encoded :
        drawing keys encoded
        ≡ draw_from keys bounds top_Fits.sides bounds.left top
            (flatten_rows (enumerate cut_at top count))
    drawing-encoded =
        let fits = top_Fits in
        let tall = ok.short in
        ap
          (λ (image : DecodedImage).
            draw_rects keys false image.bounds image.bounds.left image.bounds.top image.rects)
          (decode_image-encoded bounds (flatten_rows (enumerate cut_at top count))
            (
              omega arith,
              omega (arith, fits.inside, fits.width),
              omega arith,
              omega (arith, fits.sides, fits.inside, fits.width),
            )
            (rows-Bytes rgba_at p w h ok top count bottom some_rows in_image full
              (λ x y q r. index_of-lt (rgba_at x y) p final-IsIndexed (Has-color x y q r) small)
              count top (omega arith) (omega arith)))

    row_shows :
        (x y : ℕ)
        → x < w
        → y < h
        → (if leb top y && leb bounds.left x
            then shown keys (pixel_of (enumerate cut_at top count) (y - top) (x - bounds.left))
            else none)
          ≡ shown keys (some (pixel x y))
    row_shows x y p q = elim (Bool-cases (leb top y)) [
      | inr out ↦ rw out (blank_shows x y p (above y (omega arith) (ground arith)))
      | inl from ↦ elim (Bool-cases (ltb (y - top) count)) [
        | inl to ↦
            let at : top + (y - top) ≡ y = ground arith in
            rw (from, pixel_of-enumerate cut_at top count (y - top) (x - bounds.left), to, at)
              (cut_row_shows rgba_at _ w h ok top count bottom some_rows in_image full y
                (ground arith) (ground arith) keys x p)
        | inr past ↦
            rw (from, pixel_of-enumerate cut_at top count (y - top) (x - bounds.left), past)
              (elim (leb bounds.left x)
                as (λ t. (if t then none else none) ≡ shown keys (some (pixel x y))) [
                  | true ↦ blank_shows x y p (below y (ground arith) q)
                  | false ↦ blank_shows x y p (below y (ground arith) q)
                ])
      ]
    ]

    pub painted-encoded :
        (x y : ℕ)
        → x < w
        → y < h
        → painted x y (drawing keys encoded) ≡ shown keys (some (pixel x y))
    painted-encoded x y lt_w lt_h =
        ap (painted x y) drawing-encoded
        ∙ (draw_rows keys bounds top_Fits.sides top (enumerate cut_at top count) x y rows-IsRow
            ∙ row_shows x y lt_w lt_h)
