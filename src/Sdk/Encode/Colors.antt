-- ===== src/Sdk/Encode/Colors.antt =====
-- The palette that `encode` leaves (packages/nouns-sdk/src/image/image.ts): every colour of the image is
-- in it, at its index, and index 0 stays that of the transparent entry.
use sznouns.Prelude.{
  ℕ, zero, suc, ◌+◌, ◌-◌, ◌<◌, ◌≤◌, ◌≡◌, ◌≢◌, sym, ap, ◌∙◌, false, none, some, [], ◌++◌, arith,
  ◌==◌, if◌then◌else◌, length, length-append, replicate, length-replicate, get_elem?, some_eq,
  Bool-cases, inl, inr, Text,
}
use sznouns.Sdk.Hex.{rgb_to_hex, to_padded_hex, to_hex}
use sznouns.Sdk.Palette.{Palette, color_get, color_ensure, color_keys}
use sznouns.Sdk.Palette.Laws.{color_get-color_ensure_self, IsIndexed, color_ensure-IsIndexed}
use sznouns.Sdk.Image.{RgbaColor, Pixels}
use sznouns.Sdk.Encode.{index_of}
use sznouns.Sdk.Encode.Loops.{
  row_palette, rows_palette, row_palette-Extends, rows_palette-Extends, hex_of,
}

pub row_palette-IsIndexed :
    (rgba_at : Pixels) (n x y : ℕ) (colors : Palette)
    → IsIndexed colors
    → IsIndexed (row_palette rgba_at n x y colors)
unfolding row_palette
row_palette-IsIndexed rgba_at zero x y colors h = h
row_palette-IsIndexed rgba_at (suc n) x y colors h =
    row_palette-IsIndexed rgba_at n (x + 1) y _
      (color_ensure-IsIndexed (hex_of (rgba_at x y)) colors h)

pub rows_palette-IsIndexed :
    (rgba_at : Pixels) (w n y : ℕ) (colors : Palette)
    → IsIndexed colors
    → IsIndexed (rows_palette rgba_at w n y colors)
unfolding rows_palette
rows_palette-IsIndexed rgba_at w zero y colors h = h
rows_palette-IsIndexed rgba_at w (suc n) y colors h =
    rows_palette-IsIndexed rgba_at w n (y + 1) _ (row_palette-IsIndexed rgba_at w 0 y colors h)

-- A colour that is in a palette.
abbrev pub Has : Palette → Text → Type 0
Has m k = (i : ℕ) × (color_get k m ≡ some i)

row_palette-Has :
    (rgba_at : Pixels) (n x y : ℕ) (colors : Palette) (j : ℕ)
    → j < n
    → Has (row_palette rgba_at n x y colors) (hex_of (rgba_at (x + j) y))
unfolding row_palette
row_palette-Has rgba_at zero x y colors j h = absurd (omega arith)
row_palette-Has rgba_at (suc n) x y colors zero h =
    let (i, found) = color_get-color_ensure_self (hex_of (rgba_at x y)) colors in
    let at : x ≡ x + 0 = omega arith in
    rw (← at) (i, row_palette-Extends rgba_at n (x + 1) y _ _ i found)
row_palette-Has rgba_at (suc n) x y colors (suc j) h =
    let at : x + 1 + j ≡ x + suc j = omega arith in
    rw (← at) (
      row_palette-Has rgba_at n (x + 1) y (color_ensure (hex_of (rgba_at x y)) colors) j
        (omega arith))

pub rows_palette-Has :
    (rgba_at : Pixels) (w n y : ℕ) (colors : Palette) (x j : ℕ)
    → x < w
    → j < n
    → Has (rows_palette rgba_at w n y colors) (hex_of (rgba_at x (y + j)))
unfolding rows_palette
rows_palette-Has rgba_at w zero y colors x j lt h = absurd (omega arith)
rows_palette-Has rgba_at w (suc n) y colors x zero lt h =
    let (i, found) = row_palette-Has rgba_at w 0 y colors x lt in
    let at : y ≡ y + 0 = omega arith in
    let left : 0 + x ≡ x = omega arith in
    let found' = (rw left at found) in
    rw (← at) (i, rows_palette-Extends rgba_at w n (y + 1) _ _ i found')
rows_palette-Has rgba_at w (suc n) y colors x (suc j) lt h =
    let at : y + 1 + j ≡ y + suc j = omega arith in
    rw (← at)
      (rows_palette-Has rgba_at w n (y + 1) (row_palette rgba_at w 0 y colors) x j lt (omega arith))

length-to_padded_hex : (c : ℕ) → 2 ≤ length (to_padded_hex c 2)
unfolding to_padded_hex
length-to_padded_hex c = omega (
  arith,
  length-append {0} (replicate (2 - length (to_hex c)) 48) (to_hex c),
  length-replicate {0} {A = ℕ} (2 - length (to_hex c)) 48,
)

-- A colour's text is not empty.
rgb_to_hex-ne-nil : (r g b : ℕ) → rgb_to_hex r g b ≢ []
unfolding rgb_to_hex
rgb_to_hex-ne-nil r g b e = absurd (
    omega (
      arith,
      ap length e,
      length-to_padded_hex r,
      length-append {0} (to_padded_hex r 2) (to_padded_hex g 2 ++ to_padded_hex b 2),
    ))

-- An index of the palette shows the colour of its pixel, and 0 shows nothing.
pub index_of_shows :
    (px : RgbaColor) (p : Palette)
    → IsIndexed p
    → color_get [] p ≡ some 0
    → Has p (hex_of px)
    → (if index_of px p == 0 then none else some (get_elem? (color_keys p) (index_of px p)))
      ≡ (if px.a == 0 then none else some (some (hex_of px)))
index_of_shows px p h zero_key (i, found) = elim (Bool-cases (px.a == 0)) [
  | inl clear ↦ rw clear
  | inr opaque ↦
      let other : (i == 0) ≡ false = nonzero i found in
      rw (opaque, found, other) (ap some (h.key_at (hex_of px) i found))
]
  where
    nonzero : (i : ℕ) → color_get (hex_of px) p ≡ some i → (i == 0) ≡ false
    nonzero zero e =
        absurd (
          rgb_to_hex-ne-nil px.r px.g px.b
            (some_eq (sym (h.key_at _ 0 e) ∙ h.key_at [] 0 zero_key)))
    nonzero (suc k) e = ground arith
