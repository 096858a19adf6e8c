-- ===== src/Sdk/Glasses/Pushed.antt =====
-- What the loops of `encodeGlasses` push (packages/nouns-sdk/src/image/image.ts), and what
-- `decodeGlasses` (svg-builder.ts) reads of it.
use sznouns.Prelude.{
  ℕ, ◌<◌, ◌≡◌, refl, ap, ap₂, ◌∙◌, Bool, some, List, [], ◌∷◌, ◌++◌, map, arith, All, Text,
  Option-cases, inl, inr,
}
use sznouns.Sdk.Hex.{hex_byte, hex_bytes, parse_hex, parse_hex-hex_byte, chunks}
use sznouns.Sdk.Palette.{Palette, color_get, color_ensure}
use sznouns.Sdk.Palette.Laws.{
  Extends, color_ensure-Extends, color_get-color_ensure_self, IsIndexed, color_ensure-IsIndexed,
}
use sznouns.Sdk.Encode.{to_byte}
use sznouns.Sdk.Svg.{Number, decode_shape}
use sznouns.Sdk.Glasses.{Shape, push_shapes, shape_index}

-- The numbers of shapes with the indices of a palette.
pub numbers_in : Palette → Bool → List Shape → List ℕ
numbers_in q t [] = []
numbers_in q t (s ∷ shapes) =
    shape_index t s.color q ∷ s.a ∷ s.b ∷ s.c ∷ s.d ∷ numbers_in q t shapes

-- Every color of the shapes is in the palette.
abbrev pub HasColors : Palette → List Shape → Type 0
HasColors q = All (λ (s : Shape). (i : ℕ) × (color_get s.color q ≡ some i))

pub push_shapes-Extends :
    (t : Bool) (shapes : List Shape) (colors : Palette)
    → Extends colors (push_shapes t shapes colors).0
unfolding push_shapes
push_shapes-Extends t [] colors k i e = e
push_shapes-Extends t (s ∷ shapes) colors k i e =
    push_shapes-Extends t shapes (color_ensure s.color colors) k i
      (color_ensure-Extends s.color colors k i e)

pub push_shapes-IsIndexed :
    (t : Bool) (shapes : List Shape) (colors : Palette)
    → IsIndexed colors
    → IsIndexed (push_shapes t shapes colors).0
unfolding push_shapes
push_shapes-IsIndexed t [] colors h = h
push_shapes-IsIndexed t (s ∷ shapes) colors h =
    push_shapes-IsIndexed t shapes (color_ensure s.color colors)
      (color_ensure-IsIndexed s.color colors h)

pub push_shapes-HasColors :
    (t : Bool) (shapes : List Shape) (colors q : Palette)
    → Extends (push_shapes t shapes colors).0 q
    → HasColors q shapes
unfolding push_shapes
push_shapes-HasColors t [] colors q h = tt
push_shapes-HasColors t (s ∷ shapes) colors q h =
    let (i, e) = color_get-color_ensure_self s.color colors in
    (
      (i, h s.color i (push_shapes-Extends t shapes (color_ensure s.color colors) s.color i e)),
      push_shapes-HasColors t shapes (color_ensure s.color colors) q h,
    )

-- An index is the same in a palette to come.
shape_index-Extends :
    (t : Bool) (color : Text) (p q : Palette)
    → Extends p q
    → (i : ℕ) × (color_get color p ≡ some i)
    → shape_index t color p ≡ shape_index t color q
shape_index-Extends t color p q h (i, e) = let e' = h color i e in rw (e, e') refl

pub push_shapes-numbers_in :
    (t : Bool) (shapes : List Shape) (colors q : Palette)
    → Extends (push_shapes t shapes colors).0 q
    → (push_shapes t shapes colors).1 ≡ numbers_in q t shapes
unfolding push_shapes numbers_in
push_shapes-numbers_in t [] colors q h = refl
push_shapes-numbers_in t (s ∷ shapes) colors q h =
    let p = color_ensure s.color colors in
    ap₂ (λ i ns. i ∷ s.a ∷ s.b ∷ s.c ∷ s.d ∷ ns)
      (shape_index-Extends t s.color p q (λ k i e. h k i (push_shapes-Extends t shapes p k i e))
        (color_get-color_ensure_self s.color colors))
      (push_shapes-numbers_in t shapes p q h)

-- The four numbers of a shape fit a byte.
abbrev pub Small : List Shape → Type 0
Small = All (λ (s : Shape). (s.a < 256) × (s.b < 256) × (s.c < 256) × (s.d < 256))

abbrev pub shape_numbers : Palette → Bool → Shape → List Number
shape_numbers q t s =
    some (shape_index t s.color q) ∷ some s.a ∷ some s.b ∷ some s.c ∷ some s.d ∷ []

shape_index-small :
    (t : Bool) (color : Text) (q : Palette) (bound : ℕ)
    → 0 < bound
    → ((i : ℕ) → color_get color q ≡ some i → i < bound)
    → shape_index t color q < bound
shape_index-small t color q bound above h = elim (Option-cases (color_get color q)) [
  | inl new ↦ ground arith
  | inr (i, e) ↦ ground (arith, h i e)
]

read_byte : (n : ℕ) → n < 256 → parse_hex (hex_byte (to_byte n)) ≡ some n
read_byte n h =
    let same : to_byte n ≡ n = omega arith in
    ap (λ k. parse_hex (hex_byte k)) same ∙ parse_hex-hex_byte n h

decode_numbers :
    (i a b c d : ℕ)
    → i < 256
    → a < 256
    → b < 256
    → c < 256
    → d < 256
    → decode_shape (hex_bytes (map to_byte (i ∷ a ∷ b ∷ c ∷ d ∷ [])))
      ≡ some i ∷ some a ∷ some b ∷ some c ∷ some d ∷ []
unfolding chunks
decode_numbers i a b c d hi ha hb hc hd j =
    read_byte i hi j
    ∷ read_byte a ha j
    ∷ read_byte b hb j
    ∷ read_byte c hc j
    ∷ read_byte d hd j
    ∷ []

pub chunks-numbers_in :
    (q : Palette) (t : Bool) (shapes : List Shape) (rest : List ℕ)
    → Small shapes
    → ((k : Text) (i : ℕ) → color_get k q ≡ some i → i < 256)
    → map decode_shape (chunks 10 (hex_bytes (map to_byte (numbers_in q t shapes ++ rest))))
      ≡ map (shape_numbers q t) shapes
        ++ map decode_shape (chunks 10 (hex_bytes (map to_byte rest)))
unfolding chunks numbers_in
chunks-numbers_in q t [] rest small index = refl
chunks-numbers_in q t (s ∷ shapes) rest ((ha, hb, hc, hd), small) index =
    ap₂ ◌∷◌
      (decode_numbers (shape_index t s.color q) s.a s.b s.c s.d
        (shape_index-small t s.color q 256 (omega arith) (index s.color)) ha hb hc hd)
      (chunks-numbers_in q t shapes rest small index)
