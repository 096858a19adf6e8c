-- ===== src/Sdk/Glasses/Painted.antt =====
-- Encoded glasses are drawn with the colors of their image: `toGlassesRLE`
-- (packages/nouns-sdk/src/image/image.ts), then `buildSVG` (svg-builder.ts).
use sznouns.Prelude.{ℕ, some, List, map}
use sznouns.Sdk.Palette.{Palette}
use sznouns.Sdk.Image.{Pixels}
use sznouns.Sdk.Svg.{Element, rect}
use sznouns.Sdk.Glasses.{Shape, color_of, eye_row}
use sznouns.Sdk.Glasses.Coords.{
  coord_left_frame, coord_right_frame, coord_bridge_frame, coord_ear_frame,
  coord_left_eye_half_moon_1, coord_left_eye_half_moon_2, coord_right_eye_half_moon_1,
  coord_right_eye_half_moon_2, coord_left_half_moon_frame, coord_right_half_moon_frame,
}
use sznouns.Sdk.Glasses.Regions.{Frames, Moons, numbers, pixel_drawn}

abbrev frames_of : Pixels → Frames
frames_of rgba_at = record {
  bridge = color_of rgba_at coord_bridge_frame;
  ear = color_of rgba_at coord_ear_frame;
  left = color_of rgba_at coord_left_frame;
  right = color_of rgba_at coord_right_frame;
}

abbrev moons_of : Pixels → Moons
moons_of rgba_at = record {
  left_frame = color_of rgba_at coord_left_half_moon_frame;
  right_frame = color_of rgba_at coord_right_half_moon_frame;
  left_1 = color_of rgba_at coord_left_eye_half_moon_1;
  left_2 = color_of rgba_at coord_left_eye_half_moon_2;
  right_1 = color_of rgba_at coord_right_eye_half_moon_1;
  right_2 = color_of rgba_at coord_right_eye_half_moon_2;
}

-- The rectangle of a pixel of an eye.
abbrev pixel : Shape → Element
pixel s = rect (numbers s.a s.b s.c s.d) (some s.color)

module _ (rgba_at : Pixels) (y : ℕ) where
  abbrev row : ℕ → ℕ → List Element
  row todo x = map pixel (eye_row rgba_at todo x y)

  abbrev left : ℕ → List Element
  left x = pixel_drawn rgba_at (color_of rgba_at coord_left_frame) y x

  abbrev right : ℕ → List Element
  right x = pixel_drawn rgba_at (color_of rgba_at coord_right_frame) y x
