-- ===== src/Sdk/Roundtrip/Encoded.antt =====
-- The text of the rows between the bounds (packages/nouns-sdk/src/image/image.ts): the bytes of the cut
-- runs, row after row.
use sznouns.Prelude.{
  ℕ, zero, suc, ◌+◌, ◌<◌, ◌≤◌, ◌≡◌, refl, sym, ap, ap₂, ◌∙◌, List, [], ◌∷◌, ◌++◌, map, append-nil,
  append_assoc, arith, length, All-append, Text,
}
use sznouns.Sdk.Hex.{hex_bytes}
use sznouns.Sdk.Palette.{Palette}
use sznouns.Sdk.Image.{Rect, ImageBounds, Pixels}
use sznouns.Sdk.Image.Runs.{expand}
use sznouns.Sdk.Image.Rows.{enumerate}
use sznouns.Sdk.Image.Edges.{length-expand}
use sznouns.Sdk.Encode.{to_byte, get_encoded_row, encode_all_rows}
use sznouns.Sdk.Encode.Slices.{flat, Indexed, cut-Indexed, encode_rects-flat}
use sznouns.Sdk.Encode.Loops.{pixel_index, row_runs, blank_row, finished_row}
use sznouns.Sdk.Svg.Decode.{Bytes}
use sznouns.Sdk.Svg.Paint.{flatten_rows}
use sznouns.Sdk.Roundtrip.Rows.{IsBordered, push_all-Indexed, All-enumerate}
use sznouns.Sdk.Roundtrip.Cuts.{final_bounds, cut_row, row-Fits, length-cut_row}
use sznouns.Prelude.{false}

Bytes-of : (rs : List Rect) → Indexed rs → length (expand rs) < 256 → Bytes rs
Bytes-of [] h k = tt
Bytes-of (r ∷ rs) (h, hs) k =
    let size = length-expand r rs in
    let here : r.length < 256 = omega (arith, size) in
    ((here, h), Bytes-of rs hs (omega (arith, size)))

to_byte-flat : (rs : List Rect) → Bytes rs → map to_byte (flat rs) ≡ flat rs
to_byte-flat [] h = refl
to_byte-flat (r ∷ rs) ((p, q), h) =
    let len : to_byte r.length ≡ r.length = omega arith in
    let color : to_byte r.color_index ≡ r.color_index = omega arith in
    ap₂ (λ (a b : ℕ). a ∷ b ∷ map to_byte (flat rs)) len color
    ∙ ap (λ ns. r.length ∷ r.color_index ∷ ns) (to_byte-flat rs h)

hex_bytes-append : (bs cs : List ℕ) → hex_bytes (bs ++ cs) ≡ hex_bytes bs ++ hex_bytes cs
hex_bytes-append [] cs = refl
hex_bytes-append (b ∷ bs) cs = simp (hex_bytes-append bs cs)

flat-append : (rs ss : List Rect) → flat (rs ++ ss) ≡ flat rs ++ flat ss
flat-append [] ss = refl
flat-append (r ∷ rs) ss = simp (flat-append rs ss)

module _ (rgba_at : Pixels) (p : Palette) (w h : ℕ) (ok : IsBordered rgba_at w h) (top n bottom : ℕ)
    (some_rows : 0 < n) (in_image : top + n ≤ h) (full : blank_row rgba_at p w top ≡ false)
    (indices : (x y : ℕ) → x < w → y < h → pixel_index rgba_at p y x < 256) where
  abbrev cut_at : ℕ → List Rect
  cut_at = cut_row rgba_at p w h ok top n bottom some_rows in_image full

  abbrev bounds : ImageBounds
  bounds = final_bounds rgba_at p w h ok top n bottom some_rows in_image full

  cut_row-Bytes : (y : ℕ) → top ≤ y → y < top + n → Bytes (cut_at y)
  cut_row-Bytes y from to =
      let fits = row-Fits rgba_at p w h ok top n bottom some_rows in_image full y from to in
      let size = length-cut_row rgba_at p w h ok top n bottom some_rows in_image full y from to in
      Bytes-of (cut_at y)
        (cut-Indexed w bounds (row_runs rgba_at p w y) (
          push_all-Indexed (enumerate (pixel_index rgba_at p y) 0 w) []
            (All-enumerate (λ c. c < 256) (pixel_index rgba_at p y) 0 w
              (λ x le lt. indices x y (omega arith) (omega arith)))
            tt))
        (omega (arith, size, fits.inside, fits.width))

  encoded_row :
      (y : ℕ)
      → top ≤ y
      → y < top + n
      → get_encoded_row w bounds (finished_row rgba_at p w y) ≡ hex_bytes (flat (cut_at y))
  unfolding get_encoded_row
  encoded_row y from to =
      ap (λ ns. hex_bytes (map to_byte ns))
        (encode_rects-flat w bounds (row_runs rgba_at p w y)
          (row-Fits rgba_at p w h ok top n bottom some_rows in_image full y from to))
      ∙ ap hex_bytes (to_byte-flat (cut_at y) (cut_row-Bytes y from to))

  pub encoded_rows :
      (m i : ℕ) (result : Text)
      → top ≤ i
      → i + m ≤ top + n
      → encode_all_rows w bounds result (enumerate (finished_row rgba_at p w) i m)
        ≡ result ++ hex_bytes (flat (flatten_rows (enumerate cut_at i m)))
  unfolding encode_all_rows
  encoded_rows zero i result from to = sym (append-nil result)
  encoded_rows (suc m) i result from to =
      ap
        (λ t.
          encode_all_rows w bounds (result ++ t) (enumerate (finished_row rgba_at p w) (i + 1) m))
        (encoded_row i from (omega arith))
      ∙ (encoded_rows m (i + 1) (result ++ hex_bytes (flat (cut_at i))) (omega arith) (omega arith)
          ∙ (append_assoc result (hex_bytes (flat (cut_at i))) _
              ∙ ap (λ t. result ++ t)
                  (sym (hex_bytes-append (flat (cut_at i)) _)
                    ∙ ap hex_bytes (
                        sym (flat-append (cut_at i) (flatten_rows (enumerate cut_at (i + 1) m)))))))

  pub rows-Bytes :
      (m i : ℕ) → top ≤ i → i + m ≤ top + n → Bytes (flatten_rows (enumerate cut_at i m))
  rows-Bytes zero i from to = tt
  rows-Bytes (suc m) i from to =
      All-append (λ r. (r.length < 256) × (r.color_index < 256)) (cut_at i)
        (flatten_rows (enumerate cut_at (i + 1) m)) (cut_row-Bytes i from (omega arith))
        (rows-Bytes m (i + 1) (omega arith) (omega arith))
