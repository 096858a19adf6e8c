-- ===== src/Sdk/Svg/Decode.antt =====
-- What `decodeImage` (packages/nouns-sdk/src/image/svg-builder.ts) reads of encoded bounds and runs.
use sznouns.Prelude.{◌<◌, ◌≡◌, refl, ap, ap₂, ◌∙◌, some, List, [], ◌∷◌, ◌++◌, map, arith, All, Text}
use sznouns.Sdk.Hex.{hex_byte, hex_bytes, to_padded_hex_byte, parse_hex-hex_byte, chunks}
use sznouns.Sdk.Image.{Rect, ImageBounds}
use sznouns.Sdk.Encode.{get_encoded_bounds}
use sznouns.Sdk.Encode.Slices.{flat}
use sznouns.Sdk.Svg.{Number, NumberBounds, decode_rect, decode_image}

-- Both numbers of a run fit a byte.
abbrev pub Bytes : List Rect → Type 0
Bytes = All (λ r. (r.length < 256) × (r.color_index < 256))

abbrev pub BoundBytes : ImageBounds → Type 0
BoundBytes b = (b.top < 256) × (b.right < 256) × (b.bottom < 256) × (b.left < 256)

abbrev pub numbers_of : Rect → Number × Number
numbers_of r = (some r.length, some r.color_index)

abbrev rect_text : Rect → Text
rect_text r = hex_byte r.length ++ hex_byte r.color_index

chunks-hex_bytes : (rs : List Rect) → chunks 4 (hex_bytes (flat rs)) ≡ map rect_text rs
unfolding chunks
chunks-hex_bytes [] = refl
chunks-hex_bytes (r ∷ rs) = ap (◌∷◌ (rect_text r)) (chunks-hex_bytes rs)

decode_rect-rect_text :
    (r : Rect) → r.length < 256 → r.color_index < 256 → decode_rect (rect_text r) ≡ numbers_of r
decode_rect-rect_text r p q =
    ap₂ (λ (a b : Number). (a, b)) (parse_hex-hex_byte r.length p)
      (parse_hex-hex_byte r.color_index q)

decode_rects : (rs : List Rect) → Bytes rs → map decode_rect (map rect_text rs) ≡ map numbers_of rs
decode_rects [] h = refl
decode_rects (r ∷ rs) ((p, q), h) = ap₂ ◌∷◌ (decode_rect-rect_text r p q) (decode_rects rs h)

abbrev pub number_bounds : ImageBounds → NumberBounds
number_bounds b = record {
  top = some b.top;
  right = some b.right;
  bottom = some b.bottom;
  left = some b.left;
}

-- Decoding gives the bounds and the runs of which the text was made.
pub decode_image-encoded :
    (b : ImageBounds) (rs : List Rect)
    → BoundBytes b
    → Bytes rs
    → decode_image (get_encoded_bounds b ++ hex_bytes (flat rs))
      ≡ record { palette_index = some 0; bounds = number_bounds b; rects = map numbers_of rs }
unfolding decode_image get_encoded_bounds
decode_image-encoded b rs (t, r, d, l) h =
    rw
      (
        to_padded_hex_byte b.top t,
        to_padded_hex_byte b.right r,
        to_padded_hex_byte b.bottom d,
        to_padded_hex_byte b.left l,
      )
      (λ i. record {
        palette_index = parse_hex-hex_byte 0 (omega arith) i;
        bounds = record {
          top = parse_hex-hex_byte b.top t i;
          right = parse_hex-hex_byte b.right r i;
          bottom = parse_hex-hex_byte b.bottom d i;
          left = parse_hex-hex_byte b.left l i;
        };
        rects = (ap (map decode_rect) (chunks-hex_bytes rs) ∙ decode_rects rs h) i;
      })
