-- ===== src/Sdk/Glasses.antt =====
-- The encoder of glasses (packages/nouns-sdk/src/image/image.ts: `toGlassesRLE`, `encodeGlasses`,
-- `checkHalfMoon`, `checkValid`; utils.ts: `getHexColorAt`, `isSingleColor`).
pub mod Coords
pub mod Pushed
pub mod Drawn
pub mod Roundtrip
pub mod Regions
pub mod Painted
use sznouns.Prelude.{
  ℕ, zero, suc, ◌+◌, Bool, true, false, not, ◌&&◌, ◌||◌, ◌⊎◌, inl, inr, Option, none, some, List,
  [], ◌∷◌, ◌++◌, map, ltb, leb, ◌==◌, if◌then◌else◌, take, Text, text_eq, codes,
}
use sznouns.Sdk.Hex.{to_padded_hex, hex_bytes}
use sznouns.Sdk.Palette.{Palette, color_get, color_ensure}
use sznouns.Sdk.Image.{Pixels}
use sznouns.Sdk.Encode.{to_byte}
use sznouns.Sdk.Glasses.Coords.{
  coord_blank, coord_left_frame, coord_right_frame, coord_bridge_frame, coord_ear_frame,
  coord_left_eye_half_moon_1, coord_left_eye_half_moon_2, coord_right_eye_half_moon_1,
  coord_right_eye_half_moon_2, coord_left_half_moon_frame, coord_right_half_moon_frame,
}

abbrev pub clear_color : Text
clear_color = codes "00FFFFFF"

unfoldable pub get_hex_color_at : Pixels → ℕ → ℕ → Text
get_hex_color_at rgba_at x y =
    let px = rgba_at x y in
    if px.a == 0
    then clear_color
    else to_padded_hex px.r 2 ++ (to_padded_hex px.g 2 ++ to_padded_hex px.b 2)

abbrev pub all_of_color : Pixels → Text → List (ℕ × ℕ) → Bool
all_of_color rgba_at color [] = true
all_of_color rgba_at color ((x, y) ∷ rest) =
    text_eq color (get_hex_color_at rgba_at x y) && all_of_color rgba_at color rest

-- The color at the first of some coordinates; the lists of `Coords` are not empty.
abbrev pub color_of : Pixels → List (ℕ × ℕ) → Text
color_of rgba_at [] = []
color_of rgba_at ((x, y) ∷ rest) = get_hex_color_at rgba_at x y

unfoldable pub is_single_color : Pixels → List (ℕ × ℕ) → Bool
is_single_color rgba_at coordinates =
    all_of_color rgba_at (color_of rgba_at coordinates) coordinates

-- A colored element of glasses, with its four numbers.
pub record Shape : Type 0 where
  pub color : Text
  pub a : ℕ
  pub b : ℕ
  pub c : ℕ
  pub d : ℕ

-- `traitColors` with `svgParams`: `PARAMS_BRIDGE`, `PARAMS_EAR`, `PARAMS_CIRCLE` and `PARAMS_PATH`.
unfoldable pub trait_shapes : Pixels → List Shape
trait_shapes rgba_at =
    record { color = color_of rgba_at coord_bridge_frame; a = 13; b = 1; c = 12; d = 13 }
    ∷ record { color = color_of rgba_at coord_ear_frame; a = 1; b = 2; c = 24; d = 14 }
    ∷ record { color = color_of rgba_at coord_left_frame; a = 3; b = 12; c = 14; d = 0 }
    ∷ record { color = color_of rgba_at coord_right_frame; a = 3; b = 19; c = 14; d = 0 }
    ∷ record { color = color_of rgba_at coord_left_eye_half_moon_1; a = 12; b = 16; c = 12; d = 12 }
    ∷ record { color = color_of rgba_at coord_left_eye_half_moon_2; a = 12; b = 12; c = 12; d = 16 }
    ∷ record {
      color = color_of rgba_at coord_right_eye_half_moon_1;
      a = 19;
      b = 16;
      c = 19;
      d = 12;
    }
    ∷ record {
      color = color_of rgba_at coord_right_eye_half_moon_2;
      a = 19;
      b = 12;
      c = 19;
      d = 16;
    }
    ∷ []

abbrev pub flat_traits : Bool → Pixels → List Shape
flat_traits is_half_moon rgba_at =
    if is_half_moon then trait_shapes rgba_at else take 4 (trait_shapes rgba_at)

-- The pixels of the eyes that pass the `if` of the last loop, over the `todo` columns from `x` on; that
-- test does not read the palette.
unfoldable pub eye_row : Pixels → ℕ → ℕ → ℕ → List Shape
eye_row rgba_at zero x y = []
eye_row rgba_at (suc todo) x y =
    let hex_color = get_hex_color_at rgba_at x y in
    let rest = eye_row rgba_at todo (x + 1) y in
    if (ltb x 14 && not (text_eq hex_color (color_of rgba_at coord_left_frame)))
      || (leb 17 x && not (text_eq hex_color (color_of rgba_at coord_right_frame)))
    then record { color = hex_color; a = 1; b = 1; c = x; d = y } ∷ rest
    else rest

unfoldable pub eye_rows : Pixels → ℕ → ℕ → List Shape
eye_rows rgba_at zero y = []
eye_rows rgba_at (suc todo) y = eye_row rgba_at 11 10 y ++ eye_rows rgba_at todo (y + 1)

abbrev pub eye_shapes : Pixels → List Shape
eye_shapes rgba_at = eye_rows rgba_at 3 12

-- The index of a color: the transparent one is 0 among the traits.
abbrev pub shape_index : Bool → Text → Palette → ℕ
shape_index is_trait color colors =
    if is_trait && text_eq color clear_color
    then 0
    else elim (color_get color colors) [ none ↦ 0 | some i ↦ i ]

-- The bodies of the two loops that push colors and numbers.
unfoldable pub push_shapes : Bool → List Shape → Palette → Palette × List ℕ
push_shapes is_trait [] colors = (colors, [])
push_shapes is_trait (s ∷ shapes) colors =
    let colors' = color_ensure s.color colors in
    let (colors'', numbers) = push_shapes is_trait shapes colors' in
    (colors'', shape_index is_trait s.color colors' ∷ s.a ∷ s.b ∷ s.c ∷ s.d ∷ numbers)

unfoldable pub encode_glasses : Pixels → Palette → Bool → Palette × Text
encode_glasses rgba_at colors is_half_moon =
    let (colors', traits) = push_shapes true (flat_traits is_half_moon rgba_at) colors in
    let eyes = if is_half_moon then [] else eye_shapes rgba_at in
    let (colors'', pixels) = push_shapes false eyes colors' in
    (colors'', hex_bytes (map to_byte ((if is_half_moon then 1 else 0) ∷ (traits ++ pixels))))

unfoldable pub check_half_moon : Pixels → Bool
check_half_moon rgba_at =
    is_single_color rgba_at coord_left_half_moon_frame
    && (is_single_color rgba_at coord_right_half_moon_frame
        && (is_single_color rgba_at coord_left_eye_half_moon_1
            && (is_single_color rgba_at coord_right_eye_half_moon_1
                && (is_single_color rgba_at coord_left_eye_half_moon_2
                    && is_single_color rgba_at coord_right_eye_half_moon_2))))

-- The errors that `checkValid` throws.
pub data GlassesError : Type 0 where
  invalid_pixels invalid_left_frame invalid_right_frame invalid_bridge_frame invalid_ear_frame :
      GlassesError

abbrev pub all_clear : Pixels → List (ℕ × ℕ) → Bool
all_clear rgba_at [] = true
all_clear rgba_at ((x, y) ∷ rest) = ((rgba_at x y).a == 0) && all_clear rgba_at rest

unfoldable pub check_valid : Pixels → Option GlassesError
check_valid rgba_at =
    if not (all_clear rgba_at coord_blank)
    then some invalid_pixels
    else if not (is_single_color rgba_at coord_left_frame)
    then some invalid_left_frame
    else if not (is_single_color rgba_at coord_right_frame)
    then some invalid_right_frame
    else if not (is_single_color rgba_at coord_bridge_frame)
    then some invalid_bridge_frame
    else if not (is_single_color rgba_at coord_ear_frame)
    then some invalid_ear_frame
    else none

unfoldable pub to_glasses_rle : Pixels → Palette → GlassesError ⊎ (Palette × Text)
to_glasses_rle rgba_at colors = elim (check_valid rgba_at) [
  | some e ↦ inl e
  | none ↦
      let (colors', rle) = encode_glasses rgba_at colors (check_half_moon rgba_at) in
      inr (colors', codes "0x00" ++ rle)
]
