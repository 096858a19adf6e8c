-- ===== src/Sdk/Glasses/Regions.antt =====
-- Drawn glasses against the pixels they stand for (packages/nouns-sdk/src/image/image.ts, `toGlassesRLE`):
-- the regions of constants.ts with one color each, and the eyes.
use sznouns.Prelude.{
  ◌==◌, codes, ℕ, ◌≡◌, ◌⊎◌, refl, sym, subst, ◌∙◌, true, false, Option, some, List, [], ◌∷◌, ◌++◌,
  map, flat, if◌then◌else◌, Text, text_eq, text_eq_iff, Bool-cases, inl, inr,
}
use sznouns.Sdk.Hex.{to_padded_hex}
use sznouns.Sdk.Image.{Pixels}
use sznouns.Sdk.Svg.{Element, rect, circle, path}
use sznouns.Sdk.Glasses.{get_hex_color_at, all_of_color, color_of, is_single_color}
use sznouns.Sdk.Glasses.Coords.{
  coord_left_frame, coord_right_frame, coord_bridge_frame, coord_ear_frame,
  coord_left_eye_half_moon_1, coord_left_eye_half_moon_2, coord_right_eye_half_moon_1,
  coord_right_eye_half_moon_2, coord_left_half_moon_frame, coord_right_half_moon_frame,
}
use sznouns.Sdk.Glasses.Drawn.{shown}

-- A pixel's color: that of the transparent ones, or two hex digits for each of red, green and blue.
abbrev pub color_at : Pixels → ℕ → ℕ → Text
color_at rgba_at x y =
    let px = rgba_at x y in
    if px.a == 0
    then codes "00FFFFFF"
    else to_padded_hex px.r 2 ++ (to_padded_hex px.g 2 ++ to_padded_hex px.b 2)

pub get_hex_color_at-color_at :
    (rgba_at : Pixels) (x y : ℕ) → get_hex_color_at rgba_at x y ≡ color_at rgba_at x y
unfolding get_hex_color_at
get_hex_color_at-color_at rgba_at x y = refl

-- Each pixel of a region has this color.
abbrev pub AllHave : Pixels → Text → List (ℕ × ℕ) → Type 0
AllHave rgba_at color [] = Unit
AllHave rgba_at color ((x, y) ∷ rest) = (color_at rgba_at x y ≡ color) × AllHave rgba_at color rest

all_of_color-AllHave :
    (rgba_at : Pixels) (color : Text) (region : List (ℕ × ℕ))
    → all_of_color rgba_at color region ≡ true
    → AllHave rgba_at color region
all_of_color-AllHave rgba_at color [] h = tt
all_of_color-AllHave rgba_at color ((x, y) ∷ rest) h =
    let this = get_hex_color_at rgba_at x y in
    elim (Bool-cases (text_eq color this)) [
      | inl same ↦
          let others : all_of_color rgba_at color rest ≡ true = sym (rw same refl) ∙ h in
          (
            sym (get_hex_color_at-color_at rgba_at x y) ∙ sym ((text_eq_iff color this).0 same),
            all_of_color-AllHave rgba_at color rest others,
          )
      | inr differs ↦ let never : false ≡ true = sym (rw differs refl) ∙ h in absurd cc
    ]

AllHave-all_of_color :
    (rgba_at : Pixels) (color : Text) (region : List (ℕ × ℕ))
    → AllHave rgba_at color region
    → all_of_color rgba_at color region ≡ true
AllHave-all_of_color rgba_at color [] h = refl
AllHave-all_of_color rgba_at color ((x, y) ∷ rest) (this, others) =
    let here = get_hex_color_at-color_at rgba_at x y ∙ this in
    rw ((text_eq_iff color (get_hex_color_at rgba_at x y)).1 (sym here))
      (AllHave-all_of_color rgba_at color rest others)

pub is_single_color-AllHave :
    (rgba_at : Pixels) (region : List (ℕ × ℕ))
    → is_single_color rgba_at region ≡ true
    → AllHave rgba_at (color_of rgba_at region) region
unfolding is_single_color
is_single_color-AllHave rgba_at region h =
    all_of_color-AllHave rgba_at (color_of rgba_at region) region h

pub AllHave-is_single_color :
    (rgba_at : Pixels) (color : Text) (region : List (ℕ × ℕ))
    → AllHave rgba_at color region
    → is_single_color rgba_at region ≡ true
unfolding is_single_color
AllHave-is_single_color rgba_at color [] h = refl
AllHave-is_single_color rgba_at color ((x, y) ∷ rest) h =
    subst (λ c. all_of_color rgba_at c ((x, y) ∷ rest) ≡ true)
      (sym (get_hex_color_at-color_at rgba_at x y ∙ h.0))
      (AllHave-all_of_color rgba_at color ((x, y) ∷ rest) h)

pub record Frames : Type 0 where
  pub bridge : Text
  pub ear : Text
  pub left : Text
  pub right : Text

-- The colors of the halves of the eyes in half-moons, and of the frames that are looked at then.
pub record Moons : Type 0 where
  pub left_frame : Text
  pub right_frame : Text
  pub left_1 : Text
  pub left_2 : Text
  pub right_1 : Text
  pub right_2 : Text

abbrev pub IsFrames : Pixels → Frames → Type 0
IsFrames rgba_at c =
    AllHave rgba_at c.bridge coord_bridge_frame
    × AllHave rgba_at c.ear coord_ear_frame
    × AllHave rgba_at c.left coord_left_frame
    × AllHave rgba_at c.right coord_right_frame

abbrev pub IsMoons : Pixels → Moons → Type 0
IsMoons rgba_at m =
    AllHave rgba_at m.left_frame coord_left_half_moon_frame
    × AllHave rgba_at m.right_frame coord_right_half_moon_frame
    × AllHave rgba_at m.left_1 coord_left_eye_half_moon_1
    × AllHave rgba_at m.left_2 coord_left_eye_half_moon_2
    × AllHave rgba_at m.right_1 coord_right_eye_half_moon_1
    × AllHave rgba_at m.right_2 coord_right_eye_half_moon_2

abbrev pub numbers : ℕ → ℕ → ℕ → ℕ → List (Option ℕ)
numbers a b c d = some a ∷ some b ∷ some c ∷ some d ∷ []

abbrev pub frames_drawn : Frames → List Element
frames_drawn c =
    rect (numbers 13 1 12 13) (some (shown true c.bridge))
    ∷ rect (numbers 1 2 24 14) (some (shown true c.ear))
    ∷ circle (numbers 3 12 14 0) (some (shown true c.left))
    ∷ circle (numbers 3 19 14 0) (some (shown true c.right))
    ∷ []

abbrev pub moons_drawn : Moons → List Element
moons_drawn m =
    path (numbers 12 16 12 12) (some (shown true m.left_1))
    ∷ path (numbers 12 12 12 16) (some (shown true m.left_2))
    ∷ path (numbers 19 16 19 12) (some (shown true m.right_1))
    ∷ path (numbers 19 12 19 16) (some (shown true m.right_2))
    ∷ []

-- A pixel of an eye, unless it has the color of its frame.
abbrev pub pixel_drawn : Pixels → Text → ℕ → ℕ → List Element
pixel_drawn rgba_at frame y x =
    if text_eq (color_at rgba_at x y) frame
    then []
    else rect (numbers 1 1 x y) (some (color_at rgba_at x y)) ∷ []

abbrev pub line_drawn : Pixels → Frames → ℕ → List Element
line_drawn rgba_at c y = flat (
    map (pixel_drawn rgba_at c.left y) (10 ∷ 11 ∷ 12 ∷ 13 ∷ [])
    ++ map (pixel_drawn rgba_at c.right y) (17 ∷ 18 ∷ 19 ∷ 20 ∷ []))

abbrev pub eyes_drawn : Pixels → Frames → List Element
eyes_drawn rgba_at c = flat (map (line_drawn rgba_at c) (12 ∷ 13 ∷ 14 ∷ []))

-- The elements are those of the image: the frames, then half-moons if each of their regions has one color, or
-- else the pixels of the eyes.
abbrev pub IsDrawn : Pixels → List Element → Type 0
IsDrawn rgba_at drawn =
    (c : Frames) × IsFrames rgba_at c
    × (((m : Moons) × IsMoons rgba_at m × (drawn ≡ frames_drawn c ++ moons_drawn m))
        ⊎ ((¬ ((m : Moons) × IsMoons rgba_at m))
            × (drawn ≡ frames_drawn c ++ eyes_drawn rgba_at c)))
