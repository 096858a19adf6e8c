-- ===== src/Sdk/Glasses/Coords.antt =====
-- The coordinates and parameters of glasses (packages/nouns-sdk/src/image/constants.ts).
use sznouns.Prelude.{ℕ, List, [], ◌∷◌}

abbrev pub coord_blank : List (ℕ × ℕ)
coord_blank =
    (8, 11)
    ∷ (9, 11)
    ∷ (14, 11)
    ∷ (15, 11)
    ∷ (16, 11)
    ∷ (21, 11)
    ∷ (22, 11)
    ∷ (23, 11)
    ∷ (24, 11)
    ∷ (8, 12)
    ∷ (15, 12)
    ∷ (22, 12)
    ∷ (23, 12)
    ∷ (24, 12)
    ∷ (8, 13)
    ∷ (8, 14)
    ∷ (15, 14)
    ∷ (22, 14)
    ∷ (23, 14)
    ∷ (8, 15)
    ∷ (15, 15)
    ∷ (22, 15)
    ∷ (23, 15)
    ∷ (8, 16)
    ∷ (9, 16)
    ∷ (14, 16)
    ∷ (15, 16)
    ∷ (16, 16)
    ∷ (21, 16)
    ∷ (22, 16)
    ∷ (23, 16)
    ∷ (24, 16)
    ∷ []

abbrev pub coord_left_frame : List (ℕ × ℕ)
coord_left_frame =
    (10, 11)
    ∷ (11, 11)
    ∷ (12, 11)
    ∷ (13, 11)
    ∷ (9, 12)
    ∷ (14, 12)
    ∷ (9, 13)
    ∷ (14, 13)
    ∷ (9, 14)
    ∷ (14, 14)
    ∷ (9, 15)
    ∷ (14, 15)
    ∷ (10, 16)
    ∷ (11, 16)
    ∷ (12, 16)
    ∷ (13, 16)
    ∷ []

abbrev pub coord_right_frame : List (ℕ × ℕ)
coord_right_frame =
    (17, 11)
    ∷ (18, 11)
    ∷ (19, 11)
    ∷ (20, 11)
    ∷ (16, 12)
    ∷ (21, 12)
    ∷ (16, 13)
    ∷ (21, 13)
    ∷ (16, 14)
    ∷ (21, 14)
    ∷ (16, 15)
    ∷ (21, 15)
    ∷ (17, 16)
    ∷ (18, 16)
    ∷ (19, 16)
    ∷ (20, 16)
    ∷ []

abbrev pub coord_bridge_frame : List (ℕ × ℕ)
coord_bridge_frame = (15, 13) ∷ (22, 13) ∷ (23, 13) ∷ (24, 13) ∷ []

abbrev pub coord_ear_frame : List (ℕ × ℕ)
coord_ear_frame = (24, 14) ∷ (24, 15) ∷ []

abbrev pub coord_left_eye_half_moon_1 : List (ℕ × ℕ)
coord_left_eye_half_moon_1 = (11, 12) ∷ (10, 13) ∷ (11, 13) ∷ (10, 14) ∷ (11, 14) ∷ (11, 15) ∷ []

abbrev pub coord_left_eye_half_moon_2 : List (ℕ × ℕ)
coord_left_eye_half_moon_2 = (12, 12) ∷ (12, 13) ∷ (13, 13) ∷ (12, 14) ∷ (13, 14) ∷ (12, 15) ∷ []

abbrev pub coord_right_eye_half_moon_1 : List (ℕ × ℕ)
coord_right_eye_half_moon_1 = (18, 12) ∷ (17, 13) ∷ (18, 13) ∷ (17, 14) ∷ (18, 14) ∷ (18, 15) ∷ []

abbrev pub coord_right_eye_half_moon_2 : List (ℕ × ℕ)
coord_right_eye_half_moon_2 = (19, 12) ∷ (19, 13) ∷ (20, 13) ∷ (19, 14) ∷ (20, 14) ∷ (19, 15) ∷ []

abbrev pub coord_left_half_moon_frame : List (ℕ × ℕ)
coord_left_half_moon_frame =
    (10, 11)
    ∷ (11, 11)
    ∷ (12, 11)
    ∷ (13, 11)
    ∷ (9, 12)
    ∷ (14, 12)
    ∷ (9, 13)
    ∷ (14, 13)
    ∷ (9, 14)
    ∷ (14, 14)
    ∷ (9, 15)
    ∷ (14, 15)
    ∷ (10, 16)
    ∷ (11, 16)
    ∷ (12, 16)
    ∷ (13, 16)
    ∷ (10, 12)
    ∷ (13, 12)
    ∷ (10, 15)
    ∷ (13, 15)
    ∷ []

abbrev pub coord_right_half_moon_frame : List (ℕ × ℕ)
coord_right_half_moon_frame =
    (17, 11)
    ∷ (18, 11)
    ∷ (19, 11)
    ∷ (20, 11)
    ∷ (16, 12)
    ∷ (21, 12)
    ∷ (16, 13)
    ∷ (21, 13)
    ∷ (16, 14)
    ∷ (21, 14)
    ∷ (16, 15)
    ∷ (21, 15)
    ∷ (17, 16)
    ∷ (18, 16)
    ∷ (19, 16)
    ∷ (20, 16)
    ∷ (17, 12)
    ∷ (20, 12)
    ∷ (17, 15)
    ∷ (20, 15)
    ∷ []
