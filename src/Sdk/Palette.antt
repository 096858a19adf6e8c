-- ===== src/Sdk/Palette.antt =====
-- The colour palette of the encoder, a `Map<string, number>`: an association list in the order of
-- insertion (packages/nouns-sdk/src/image/image.ts, png-collection-encoder.ts).
pub mod Laws
use sznouns.Prelude.{ℕ, Option, none, some, List, [], ◌∷◌, if◌then◌else◌, length, Text, text_eq}

abbrev pub Palette : Type 0
Palette = List (Text × ℕ)

-- `colors.get(key)`.
unfoldable pub color_get : Text → Palette → Option ℕ
color_get key [] = none
color_get key ((k, v) ∷ m) = if text_eq k key then some v else color_get key m

-- `colors.set(key, value)`: a key that is there keeps its place.
unfoldable pub color_set : Text → ℕ → Palette → Palette
color_set key value [] = (key, value) ∷ []
color_set key value ((k, v) ∷ m) =
    if text_eq k key then (k, value) ∷ m else (k, v) ∷ color_set key value m

-- `if (!colors.has(key)) { colors.set(key, colors.size); }`
unfoldable pub color_ensure : Text → Palette → Palette
color_ensure key m = elim (color_get key m) [ none ↦ color_set key (length m) m | some v ↦ m ]

-- `[...colors.keys()]`
abbrev pub color_keys : Palette → List Text
color_keys [] = []
color_keys ((k, v) ∷ m) = k ∷ color_keys m
