-- ===== src/Sdk/Tests.antt =====
-- Runs of the image encoder and of the SVG builder on small images (packages/nouns-sdk/src/image).
use sznouns.Prelude.{
  ◌≤◌, ◌≡◌, refl, ◌&&◌, ◌||◌, some, [], ◌∷◌, arith, ◌==◌, if◌then◌else◌, length, codes, text_eq,
  text_eq_iff, starts_with, inr, ℕ, Bool, false, List,
}
use sznouns.Sdk.Hex.{rgb_to_hex, to_padded_hex}
use sznouns.Sdk.Palette.{Palette, color_get, color_set, color_ensure, color_keys}
use sznouns.Sdk.Image.{
  RgbaColor, Pixels, new_image, update_image_bounds, append_pixel_to_rect, rows_get, rows_set,
  rows_delete, push_pixel,
}
use sznouns.Sdk.Encode.{to_rle}
use sznouns.Sdk.Svg.{draw_part}
use sznouns.Sdk.Svg.Paint.{painted}
use sznouns.Sdk.Roundtrip.Rows.{IsBordered, IsPalette}
use sznouns.Sdk.Roundtrip.Image.{draw_part-to_rle}
use sznouns.Sdk.Glasses.{
  encode_glasses, push_shapes, check_half_moon, check_valid, is_single_color, trait_shapes, eye_row,
  eye_rows, get_hex_color_at,
}
use sznouns.Sdk.Glasses.Coords.{coord_left_frame}

-- What a run of the encoder computes through.
encoder : Unit {0}
unfolding to_rle new_image update_image_bounds append_pixel_to_rect rows_get rows_set rows_delete
    push_pixel color_get color_set color_ensure text_eq rgb_to_hex
encoder = tt

abbrev clear : RgbaColor
clear = record { r = 1; g = 2; b = 3; a = 0 }

abbrev red : RgbaColor
red = record { r = 255; g = 0; b = 0; a = 255 }

-- Two red pixels in an image of five columns and four rows.
abbrev bar : Pixels
bar x y = if (y == 1) && ((x == 1) || (x == 2)) then red else clear

abbrev start : Palette
start = ([], 0) ∷ []

bar_text : (to_rle bar (new_image 5 4) start).2 ≡ codes "0x00010301010202"
unfolding encoder
bar_text = refl

bar_palette :
    color_keys (to_rle bar (new_image 5 4) start).1 ≡ [] ∷ codes "010203" ∷ codes "ff0000" ∷ []
unfolding encoder
bar_palette = refl

bar-IsBordered : IsBordered bar 5 4
bar-IsBordered = record {
  wide = omega arith;
  narrow = omega arith;
  tall = omega arith;
  short = omega arith;
  first_row = λ x h. ground arith;
  last_row = inr (λ x h. ground arith);
  first_column = λ y h. ground arith;
  last_column = λ y h. ground arith;
}

start-IsPalette : IsPalette start
unfolding color_get text_eq
start-IsPalette = record {
  indexed = record { key_at = λ k i e. ground (arith, text_eq_iff [] k) };
  transparent = refl;
}

bar_small : length (to_rle bar (new_image 5 4) start).1 ≤ 256
unfolding encoder
bar_small = omega arith

draw_part-to_rle_example :
    painted 2 1 (
      draw_part
        (color_keys (to_rle bar (new_image 5 4) start).1)
        (record { filename = codes "head"; text = (to_rle bar (new_image 5 4) start).2 }))
    ≡ some (some (codes "ff0000"))
unfolding starts_with rgb_to_hex
draw_part-to_rle_example =
    draw_part-to_rle bar 5 4 start (codes "head") bar-IsBordered start-IsPalette bar_small refl 2 1
      (omega arith) (omega arith)

abbrev among : ℕ → ℕ → List (ℕ × ℕ) → Bool
among x y [] = false
among x y ((a, b) ∷ rest) = ((x == a) && (y == b)) || among x y rest

-- Glasses with a red left frame and nothing else: the left eye's pixels differ from their frame.
abbrev monocle : Pixels
monocle x y = if among x y coord_left_frame then red else clear

-- What a run of the encoder of glasses computes through.
glasses : Unit {0}
unfolding encode_glasses push_shapes check_half_moon check_valid is_single_color trait_shapes
    eye_row eye_rows get_hex_color_at to_padded_hex color_get color_set color_ensure text_eq
    starts_with
glasses = tt
