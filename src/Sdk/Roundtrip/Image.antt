-- ===== src/Sdk/Roundtrip/Image.antt =====
-- An image with clear edges comes back from its encoding: `toRLE` of `Image`, then `decodeImage` and the
-- drawing loop of `buildSVG` (packages/nouns-sdk/src/image).
use sznouns.Prelude.{
  ℕ, suc, ◌+◌, ◌-◌, ◌<◌, ◌≤◌, ◌≡◌, sym, subst, ap, ◌∙◌, true, false, none, some, arith, ◌==◌,
  if◌then◌else◌, length, Text, codes, starts_with, inl, inr,
}
use sznouns.Sdk.Hex.{rgb_to_hex, parse_hex, chunks}
use sznouns.Sdk.Palette.{Palette, color_keys}
use sznouns.Sdk.Image.{Pixels, ImageBounds, new_image}
use sznouns.Sdk.Image.Rows.{row_list}
use sznouns.Sdk.Image.Bounds.{Vertical, nothing, inside, closed, AllBlank}
use sznouns.Sdk.Encode.{finish, to_rle, get_encoded_bounds}
use sznouns.Sdk.Encode.Loops.{with_state}
use sznouns.Sdk.Svg.{draw_part, decode_image, draw_rects}
use sznouns.Sdk.Svg.Paint.{painted, shown}
use sznouns.Sdk.Roundtrip.Rows.{IsBordered, IsPalette, clear_row_blank}
use sznouns.Sdk.Roundtrip.Encoded.{encoded_rows}
use sznouns.Sdk.Roundtrip.Finished.{
  final_palette, row_at, blank_at, final_vertical, final-Vertical, to_rle_new,
  delete_empty_rows_lem, finish_lem, finish_blank,
}
use sznouns.Sdk.Roundtrip.Drawn.{
  drawing, draw_part_image, pixel, keys, blank, blank_shows, pixel_shows, painted-encoded, encoded,
  index_of-lt, Has-color, final-IsIndexed, some_rows, in_image, bounds,
}

module _ (rgba_at : Pixels) (w h : ℕ) (colors : Palette) (ok : IsBordered rgba_at w h)
    (pal : IsPalette colors) (small : length (final_palette rgba_at w h colors) ≤ 256) where
  abbrev new_text : Text
  new_text = (to_rle rgba_at (new_image w h) colors).2

  abbrev v : ImageBounds
  v = final_vertical rgba_at w h colors

  Paints : ℕ → ℕ → Text → Type 0
  Paints x y text =
      painted x y (drawing (keys rgba_at w h colors ok pal) text)
      ≡ shown (keys rgba_at w h colors ok pal) (some (pixel rgba_at w h colors ok pal x y))

  blank_text :
      v.top ≡ 0
      → v.bottom ≡ 0
      → blank rgba_at w h colors ok pal 0 ≡ true
      → new_text ≡ codes "0x0000000000"
  unfolding new_image
  blank_text top bottom first =
      (to_rle_new rgba_at w h colors ok).1
      ∙ (ap (λ img. (finish img).1)
            (delete_empty_rows_lem (row_at rgba_at w h colors) (new_image w h) v 0 (omega arith)
              (omega (arith, ok.tall)))
          ∙ (ap
                (λ k.
                  (finish
                    (with_state (new_image w h) (row_list (row_at rgba_at w h colors) k 1) v)).1)
                top
              ∙ finish_blank (row_at rgba_at w h colors) (new_image w h) v first))

  blank-Paints :
      (x y : ℕ)
      → x < w
      → blank rgba_at w h colors ok pal y ≡ true
      → Paints x y (codes "0x0000000000")
  unfolding Paints painted decode_image draw_rects chunks parse_hex
  blank-Paints x y lt e = blank_shows rgba_at w h colors ok pal x y lt e

  module _ (pos : 0 < v.top) (le : v.top ≤ v.bottom) (lt : v.bottom < h)
      (full : blank rgba_at w h colors ok pal v.top ≡ false)
      (above : AllBlank (blank rgba_at w h colors ok pal) 0 v.top)
      (below : AllBlank (blank rgba_at w h colors ok pal) (v.bottom + 1) h) where
    rows_text :
        new_text ≡ encoded rgba_at w h colors ok pal small v.top v.bottom le lt full above below
    unfolding new_image
    rows_text =
        (to_rle_new rgba_at w h colors ok).1
        ∙ (ap (λ img. (finish img).1)
              (delete_empty_rows_lem (row_at rgba_at w h colors) (new_image w h) v
                (v.bottom - v.top) (omega arith) lt)
            ∙ (finish_lem (row_at rgba_at w h colors) (new_image w h) v (v.bottom - v.top) pos
                ∙ encoded_rows rgba_at (final_palette rgba_at w h colors) w h ok v.top
                    (suc (v.bottom - v.top)) v.bottom
                    (some_rows rgba_at w h colors ok pal small v.top v.bottom le lt full above
                      below)
                    (in_image rgba_at w h colors ok pal small v.top v.bottom le lt full above below)
                    full
                    (λ x y q r.
                      index_of-lt (rgba_at x y) (final_palette rgba_at w h colors)
                        (final-IsIndexed rgba_at w h colors ok pal)
                        (Has-color rgba_at w h colors ok pal x y q r) small)
                    (suc (v.bottom - v.top)) v.top
                    (get_encoded_bounds (
                      bounds rgba_at w h colors ok pal small v.top v.bottom le lt full above below))
                    (omega arith) (omega arith)))

  new_text-Paints : (x y : ℕ) → x < w → y < h → Paints x y new_text
  unfolding Paints
  new_text-Paints x y lt_w lt_h = by_bounds (final-Vertical rgba_at w h colors ok)
    where
      by_bounds : Vertical (blank_at rgba_at w h colors) h v → Paints x y new_text
      by_bounds (nothing top bottom all) =
          subst (Paints x y) (sym (blank_text top bottom (all 0 (omega arith) ok.tall)))
            (blank-Paints x y lt_w (all y (omega arith) lt_h))
      by_bounds (inside pos below first above bottom last ne) = elim ok.last_row [
        | inl at ↦ absurd (ne at)
        | inr clear ↦ cc (
          last,
          clear_row_blank rgba_at (final_palette rgba_at w h colors) w ok.wide (h - 1) clear,
        )
      ]
      by_bounds (closed pos le lt first above below) =
          subst (Paints x y) (sym (rows_text pos le lt first above below)) (
            painted-encoded rgba_at w h colors ok pal small v.top v.bottom le lt first above below x
              y lt_w lt_h)

-- For an image of width below 256 and height up to 256 whose first and last column and first row are
-- clear, and whose last row is clear or row 31: if the palette gives positions for indices, holds
-- the transparent entry at 0, and has at most 256 colours in the end, then a part whose text is the
-- image's encoding, not named as glasses, is drawn with nothing at the pixels of alpha 0 and with
-- the pixel's colour at all others.
pub draw_part-to_rle :
    (rgba_at : Pixels) (w h : ℕ) (colors : Palette) (name : Text)
    → IsBordered rgba_at w h
    → IsPalette colors
    → length (to_rle rgba_at (new_image w h) colors).1 ≤ 256
    → starts_with (codes "glasses") name ≡ false
    → (x y : ℕ) → x < w
    → y < h
    → painted x y (
        draw_part
          (color_keys (to_rle rgba_at (new_image w h) colors).1)
          (record { filename = name; text = (to_rle rgba_at (new_image w h) colors).2 }))
      ≡ (if (rgba_at x y).a == 0
          then none
          else some (some (rgb_to_hex (rgba_at x y).r (rgba_at x y).g (rgba_at x y).b)))
unfolding Paints
draw_part-to_rle rgba_at w h colors name ok pal small other x y lt_w lt_h =
    let same = (to_rle_new rgba_at w h colors ok).0 in
    let small' = rw same at small in
    ap (painted x y) (draw_part_image _ name _ other)
    ∙ (ap (λ q. painted x y (drawing (color_keys q) (to_rle rgba_at (new_image w h) colors).2)) same
        ∙ (new_text-Paints rgba_at w h colors ok pal small' x y lt_w lt_h
            ∙ pixel_shows rgba_at w h colors ok pal x y lt_w lt_h))
