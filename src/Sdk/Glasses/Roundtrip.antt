-- ===== src/Sdk/Glasses/Roundtrip.antt =====
-- What is drawn for the encoding of glasses: `toGlassesRLE` (packages/nouns-sdk/src/image/image.ts), then
-- `buildSVG` (svg-builder.ts).
use sznouns.Prelude.{
  ℕ, zero, suc, ◌+◌, ◌<◌, ◌≤◌, ◌≡◌, refl, sym, ap, ap₂, ◌∙◌, Bool, true, false, not, ◌&&◌, ◌||◌,
  none, some, List, [], ◌∷◌, ◌++◌, append-nil, map, arith, All-append, length, ltb, leb,
  if◌then◌else◌, Text, text_eq, Bool-cases, inl, inr, codes, starts_with,
}
use sznouns.Sdk.Hex.{hex_bytes, parse_hex, chunks}
use sznouns.Sdk.Palette.{Palette, color_get, color_keys}
use sznouns.Sdk.Palette.Laws.{IsIndexed}
use sznouns.Sdk.Image.{Pixels}
use sznouns.Sdk.Encode.{to_byte}
use sznouns.Sdk.Svg.{
  Number, Element, decode_shape, decode_glasses, draw_shapes, draw_part, decode_image,
}
use sznouns.Sdk.Glasses.{
  Shape, push_shapes, trait_shapes, flat_traits, eye_row, eye_rows, eye_shapes, encode_glasses,
  check_half_moon, check_valid, to_glasses_rle, color_of, get_hex_color_at,
}
use sznouns.Sdk.Glasses.Coords.{coord_left_frame, coord_right_frame}
use sznouns.Sdk.Glasses.Pushed.{
  numbers_in, push_shapes-Extends, push_shapes-IsIndexed, push_shapes-HasColors,
  push_shapes-numbers_in, Small, shape_numbers, chunks-numbers_in,
}
use sznouns.Sdk.Glasses.Drawn.{
  elements, Ready, key_below, draw_shapes-elements, draw_shapes-append, draw_rects_glasses,
}

flat_traits-Small : (half_moon : Bool) (rgba_at : Pixels) → Small (flat_traits half_moon rgba_at)
unfolding trait_shapes
flat_traits-Small true rgba_at = ground arith
flat_traits-Small false rgba_at = ground arith

eye_row-Small :
    (rgba_at : Pixels) (todo x y : ℕ) → x + todo ≤ 256 → y < 256 → Small (eye_row rgba_at todo x y)
unfolding eye_row
eye_row-Small rgba_at zero x y h lt = tt
eye_row-Small rgba_at (suc todo) x y h lt =
    let rest = eye_row-Small rgba_at todo (x + 1) y (omega arith) lt in
    let hex_color = get_hex_color_at rgba_at x y in
    elim (Bool-cases (
      (ltb x 14 && not (text_eq hex_color (color_of rgba_at coord_left_frame)))
      || (leb 17 x && not (text_eq hex_color (color_of rgba_at coord_right_frame))))) [
        | inl other ↦ rw (other) (((omega arith, omega arith, omega arith, omega arith), rest))
        | inr same ↦ rw (same) rest
      ]

eye_rows-Small : (rgba_at : Pixels) (todo y : ℕ) → y + todo ≤ 256 → Small (eye_rows rgba_at todo y)
unfolding eye_rows
eye_rows-Small rgba_at zero y h = tt
eye_rows-Small rgba_at (suc todo) y h =
    All-append _ (eye_row rgba_at 11 10 y) (eye_rows rgba_at todo (y + 1))
      (eye_row-Small rgba_at 11 10 y (omega arith) (omega arith))
      (eye_rows-Small rgba_at todo (y + 1) (omega arith))

abbrev pub eyes : Bool → Pixels → List Shape
eyes half_moon rgba_at = if half_moon then [] else eye_shapes rgba_at

eyes-Small : (half_moon : Bool) (rgba_at : Pixels) → Small (eyes half_moon rgba_at)
eyes-Small true rgba_at = tt
eyes-Small false rgba_at = eye_rows-Small rgba_at 3 12 (omega arith)

-- The elements for glasses: the traits, then, unless they are half-moons, the pixels of the eyes that
-- differ from their frame.
unfoldable pub glasses_elements : Bool → Pixels → List Element
glasses_elements half_moon rgba_at =
    elements half_moon 0 true (flat_traits half_moon rgba_at)
    ++ elements half_moon (length (flat_traits half_moon rgba_at)) false (eyes half_moon rgba_at)

abbrev flag : Bool → ℕ
flag half_moon = if half_moon then 1 else 0

decode_glasses-text :
    (half_moon : Bool) (ns : List ℕ)
    → decode_glasses (codes "0x00" ++ hex_bytes (map to_byte (flag half_moon ∷ ns))) ≡ record {
      palette_index = some 0;
      is_half_moon = some (flag half_moon);
      shapes = map decode_shape (chunks 10 (hex_bytes (map to_byte ns)));
    }
unfolding decode_glasses parse_hex
decode_glasses-text true ns = refl
decode_glasses-text false ns = refl

draw_part_glasses :
    (colors : List Text) (name text : Text)
    → starts_with (codes "glasses") name ≡ true
    → draw_part colors (record { filename = name; text = text })
      ≡ draw_shapes colors (decode_glasses text).is_half_moon 0 (decode_glasses text).shapes
unfolding draw_part
draw_part_glasses colors name text h =
    let image = decode_image text in
    let shapes =
      draw_shapes colors (decode_glasses text).is_half_moon 0 (decode_glasses text).shapes in
    rw (h) (
      ap (◌++◌ shapes)
        (draw_rects_glasses colors image.bounds image.rects image.bounds.left image.bounds.top)
      ∙ append-nil shapes)

-- The palettes after the traits and after all shapes, and the numbers that were pushed.
abbrev traits_pushed : Bool → Pixels → Palette → Palette × List ℕ
traits_pushed half_moon rgba_at colors = push_shapes true (flat_traits half_moon rgba_at) colors

abbrev eyes_pushed : Bool → Pixels → Palette → Palette × List ℕ
eyes_pushed half_moon rgba_at colors =
    push_shapes false (eyes half_moon rgba_at) (traits_pushed half_moon rgba_at colors).0

pushed-Ready :
    (half_moon : Bool) (rgba_at : Pixels) (colors : Palette)
    → IsIndexed colors
    → color_get [] colors ≡ some 0
    → length (eyes_pushed half_moon rgba_at colors).0 ≤ 256
    → Ready (eyes_pushed half_moon rgba_at colors).0
pushed-Ready half_moon rgba_at colors h zero_key small =
    let traits = flat_traits half_moon rgba_at in
    let p = (traits_pushed half_moon rgba_at colors).0 in
    record {
      indexed =
          push_shapes-IsIndexed false (eyes half_moon rgba_at) p
            (push_shapes-IsIndexed true traits colors h);
      transparent =
          push_shapes-Extends false (eyes half_moon rgba_at) p [] 0
            (push_shapes-Extends true traits colors [] 0 zero_key);
      small = small;
    }

abbrev read_shapes : List ℕ → List (List Number)
read_shapes ns = map decode_shape (chunks 10 (hex_bytes (map to_byte ns)))

decoded_shapes :
    (half_moon : Bool) (rgba_at : Pixels) (colors : Palette)
    → Ready (eyes_pushed half_moon rgba_at colors).0
    → read_shapes
        ((traits_pushed half_moon rgba_at colors).1 ++ (eyes_pushed half_moon rgba_at colors).1)
      ≡ map
          (shape_numbers (eyes_pushed half_moon rgba_at colors).0 true)
          (flat_traits half_moon rgba_at)
        ++ map
            (shape_numbers (eyes_pushed half_moon rgba_at colors).0 false)
            (eyes half_moon rgba_at)
unfolding chunks
decoded_shapes half_moon rgba_at colors ready =
    let traits = flat_traits half_moon rgba_at in
    let others = eyes half_moon rgba_at in
    let p = (traits_pushed half_moon rgba_at colors).0 in
    let q = (eyes_pushed half_moon rgba_at colors).0 in
    let index : (k : Text) (i : ℕ) → color_get k q ≡ some i → i < 256 =
      λ k i e. omega (arith, key_below q k i ready.indexed e, ready.small) in
    let first = push_shapes-numbers_in true traits colors q (push_shapes-Extends false others p) in
    let second = push_shapes-numbers_in false others p q (λ k i e. e) in
    let last =
      ap read_shapes (sym (append-nil (numbers_in q false others)))
      ∙ (chunks-numbers_in q false others [] (eyes-Small half_moon rgba_at) index
          ∙ append-nil (map (shape_numbers q false) others)) in
    ap₂ (λ xs ys. read_shapes (xs ++ ys)) first second
    ∙ (chunks-numbers_in q true traits (numbers_in q false others)
          (flat_traits-Small half_moon rgba_at) index
        ∙ ap (◌++◌ (map (shape_numbers q true) traits)) last)

length-map {ℓ κ} :
    {A : Type ℓ} {B : Type κ} (f : A → B) (xs : List A) → length (map f xs) ≡ length xs
length-map f [] = refl
length-map f (x ∷ xs) = ap suc (length-map f xs)

drawn_shapes :
    (half_moon : Bool) (rgba_at : Pixels) (colors : Palette)
    → Ready (eyes_pushed half_moon rgba_at colors).0
    → draw_shapes (color_keys (eyes_pushed half_moon rgba_at colors).0) (some (flag half_moon)) 0 (
        read_shapes
          ((traits_pushed half_moon rgba_at colors).1 ++ (eyes_pushed half_moon rgba_at colors).1))
      ≡ glasses_elements half_moon rgba_at
unfolding glasses_elements
drawn_shapes half_moon rgba_at colors ready =
    let traits = flat_traits half_moon rgba_at in
    let others = eyes half_moon rgba_at in
    let p = (traits_pushed half_moon rgba_at colors).0 in
    let q = (eyes_pushed half_moon rgba_at colors).0 in
    let has = push_shapes-HasColors true traits colors q (push_shapes-Extends false others p) in
    let at : 0 + length (map (shape_numbers q true) traits) ≡ length traits =
      omega (arith, length-map (shape_numbers q true) traits) in
    let has' = push_shapes-HasColors false others p q (λ k i e. e) in
    ap (draw_shapes (color_keys q) (some (flag half_moon)) 0)
      (decoded_shapes half_moon rgba_at colors ready)
    ∙ (draw_shapes-append (color_keys q) (some (flag half_moon)) 0
          (map (shape_numbers q true) traits) (map (shape_numbers q false) others)
        ∙ ap₂ ◌++◌ (draw_shapes-elements q half_moon 0 true traits ready has) (
            ap
              (λ n.
                draw_shapes (color_keys q) (some (flag half_moon)) n
                  (map (shape_numbers q false) others))
              at
            ∙ draw_shapes-elements q half_moon (length traits) false others ready has'))

pub draw_part-glasses_elements :
    (rgba_at : Pixels) (colors : Palette) (name : Text)
    → starts_with (codes "glasses") name ≡ true
    → check_valid rgba_at ≡ none
    → IsIndexed colors
    → color_get [] colors ≡ some 0
    → length (encode_glasses rgba_at colors (check_half_moon rgba_at)).0 ≤ 256
    → (q : Palette) × (text : Text) × (to_glasses_rle rgba_at colors ≡ inr (q, text))
      × (draw_part (color_keys q) (record { filename = name; text = text })
          ≡ glasses_elements (check_half_moon rgba_at) rgba_at)
unfolding to_glasses_rle encode_glasses
draw_part-glasses_elements rgba_at colors name named valid indexed zero_key small =
    let half_moon = check_half_moon rgba_at in
    let q = (eyes_pushed half_moon rgba_at colors).0 in
    let ns =
      (traits_pushed half_moon rgba_at colors).1 ++ (eyes_pushed half_moon rgba_at colors).1 in
    let text = codes "0x00" ++ hex_bytes (map to_byte (flag half_moon ∷ ns)) in
    let ready = pushed-Ready half_moon rgba_at colors indexed zero_key small in
    (
      q,
      text,
      rw (valid, to_glasses_rle) refl,
      draw_part_glasses (color_keys q) name text named
          ∙ (ap (λ d. draw_shapes (color_keys q) d.is_half_moon 0 d.shapes)
                (decode_glasses-text half_moon ns)
              ∙ drawn_shapes half_moon rgba_at colors ready),
    )
