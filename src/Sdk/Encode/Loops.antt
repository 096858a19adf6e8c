-- ===== src/Sdk/Encode/Loops.antt =====
-- What the loops of `encode` build (packages/nouns-sdk/src/image/image.ts): the runs of every row,
-- the palette of all colours, and the vertical bounds.
use sznouns.Prelude.{
  ℕ, zero, suc, ◌+◌, ◌-◌, ◌<◌, ◌≡◌, refl, sym, ap, ◌∙◌, Bool, List, [], ◌∷◌, ◌++◌, arith,
}
use sznouns.Sdk.Palette.{Palette, color_ensure}
use sznouns.Sdk.Palette.Laws.{Extends, color_ensure-Extends, color_get-color_ensure_self}
use sznouns.Sdk.Hex.{rgb_to_hex}
use sznouns.Sdk.Image.{
  Rect, ImageRow, ImageRows, ImageBounds, Image, RgbaColor, Pixels, append_pixel_to_rect,
  update_vertical, update_image_bounds, is_empty_row, first_rect, last_rect, length_of, push_pixel,
}
use sznouns.Sdk.Image.Runs.{push_all}
use sznouns.Sdk.Image.Bounds.{vertical}
use sznouns.Sdk.Image.Rows.{
  Below, rows_get_last, rows_get-Below, rows_set_last, rows_set-Below, row_list, row_list_snoc,
  row_list-Below, enumerate,
}
use sznouns.Sdk.Encode.{index_of, encode_pixels, encode_rows}

abbrev pub with_rows : Image → ImageRows → Image
with_rows img m = record img { rows = m }

abbrev pub with_state : Image → ImageRows → ImageBounds → Image
with_state img m b = record img { rows = m; bounds = b }

abbrev pub with_rects : ImageRow → List Rect → ImageRow
with_rects row rects = record row { rects = rects }

abbrev pub fresh_row : ImageRow
fresh_row = record { rects = []; bounds = record { left = 0; right = 0 } }

abbrev pub hex_of : RgbaColor → List ℕ
hex_of px = rgb_to_hex px.r px.g px.b

-- The palettes after a row and after all rows.
unfoldable pub row_palette : Pixels → ℕ → ℕ → ℕ → Palette → Palette
row_palette rgba_at zero x y colors = colors
row_palette rgba_at (suc todo) x y colors =
    row_palette rgba_at todo (x + 1) y (color_ensure (hex_of (rgba_at x y)) colors)

unfoldable pub rows_palette : Pixels → ℕ → ℕ → ℕ → Palette → Palette
rows_palette rgba_at w zero y colors = colors
rows_palette rgba_at w (suc todo) y colors =
    rows_palette rgba_at w todo (y + 1) (row_palette rgba_at w 0 y colors)

pub row_palette-Extends :
    (rgba_at : Pixels) (n x y : ℕ) (colors : Palette)
    → Extends colors (row_palette rgba_at n x y colors)
unfolding row_palette
row_palette-Extends rgba_at zero x y colors k i h = h
row_palette-Extends rgba_at (suc n) x y colors k i h =
    row_palette-Extends rgba_at n (x + 1) y _ k i
      (color_ensure-Extends (hex_of (rgba_at x y)) colors k i h)

pub rows_palette-Extends :
    (rgba_at : Pixels) (w n y : ℕ) (colors : Palette)
    → Extends colors (rows_palette rgba_at w n y colors)
unfolding rows_palette
rows_palette-Extends rgba_at w zero y colors k i h = h
rows_palette-Extends rgba_at w (suc n) y colors k i h =
    rows_palette-Extends rgba_at w n (y + 1) _ k i (row_palette-Extends rgba_at w 0 y colors k i h)

-- An index is the same in every later palette.
index_of-Extends :
    (px : RgbaColor) (colors p : Palette)
    → Extends (color_ensure (hex_of px) colors) p
    → index_of px (color_ensure (hex_of px) colors) ≡ index_of px p
index_of-Extends px colors p e =
    let (i, found) = color_get-color_ensure_self (hex_of px) colors in
    ground (arith, found, e (hex_of px) i found)

append_first :
    (c y : ℕ) (img : Image) (m : ImageRows)
    → Below y m
    → append_pixel_to_rect c y (with_rows img m)
      ≡ with_rows img (m ++ (y, with_rects fresh_row (push_pixel c [])) ∷ [])
unfolding append_pixel_to_rect
append_first c y img m h = rw (rows_get-Below y m h) (ap (with_rows img) (rows_set-Below y _ m h))

append_last :
    (c y : ℕ) (img : Image) (m : ImageRows) (row : ImageRow)
    → Below y m
    → append_pixel_to_rect c y (with_rows img (m ++ (y, row) ∷ []))
      ≡ with_rows img (m ++ (y, with_rects row (push_pixel c row.rects)) ∷ [])
unfolding append_pixel_to_rect
append_last c y img m row h =
    rw (rows_get_last y row m h) (ap (with_rows img) (rows_set_last y _ row m h))

module _ (rgba_at : Pixels) (p : Palette) where
  -- The indices of a row's pixels.
  abbrev pub pixel_index : ℕ → ℕ → ℕ
  pixel_index y x = index_of (rgba_at x y) p

  encode_pixels_from :
      (n x y : ℕ) (img : Image) (m : ImageRows) (row : ImageRow) (colors : Palette)
      → Below y m
      → Extends (row_palette rgba_at n x y colors) p
      → encode_pixels rgba_at n x y (with_rows img (m ++ (y, row) ∷ [])) colors ≡ (
        with_rows img
            (m ++ (y, with_rects row (push_all (enumerate (pixel_index y) x n) row.rects)) ∷ []),
        row_palette rgba_at n x y colors,
      )
  unfolding encode_pixels row_palette
  encode_pixels_from zero x y img m row colors h e = refl
  encode_pixels_from (suc n) x y img m row colors h e =
      let colors' = color_ensure (hex_of (rgba_at x y)) colors in
      let same : index_of (rgba_at x y) colors' ≡ pixel_index y x =
        index_of-Extends (rgba_at x y) colors p
          (λ k i q. e k i (row_palette-Extends rgba_at n (x + 1) y _ k i q)) in
      rw (same, append_last (pixel_index y x) y img m row h)
        (encode_pixels_from n (x + 1) y img m
          (with_rects row (push_pixel (pixel_index y x) row.rects)) colors' h e)

  -- The first pixel makes the row.
  encode_pixels_row :
      (n y : ℕ) (img : Image) (m : ImageRows) (colors : Palette)
      → Below y m
      → Extends (row_palette rgba_at (suc n) 0 y colors) p
      → encode_pixels rgba_at (suc n) 0 y (with_rows img m) colors ≡ (
        with_rows img (
            m
            ++ (y, with_rects fresh_row (push_all (enumerate (pixel_index y) 0 (suc n)) [])) ∷ []),
        row_palette rgba_at (suc n) 0 y colors,
      )
  unfolding encode_pixels row_palette
  encode_pixels_row n y img m colors h e =
      let colors' = color_ensure (hex_of (rgba_at 0 y)) colors in
      let same : index_of (rgba_at 0 y) colors' ≡ pixel_index y 0 =
        index_of-Extends (rgba_at 0 y) colors p
          (λ k i q. e k i (row_palette-Extends rgba_at n (0 + 1) y _ k i q)) in
      rw (same, append_first (pixel_index y 0) y img m h)
        (encode_pixels_from n (0 + 1) y img m
          (with_rects fresh_row (push_pixel (pixel_index y 0) [])) colors' h e)

  -- A finished row of `w` pixels.
  abbrev pub row_runs : ℕ → ℕ → List Rect
  row_runs w y = push_all (enumerate (pixel_index y) 0 w) []

  abbrev pub finished_row : ℕ → ℕ → ImageRow
  finished_row w y = record {
    rects = row_runs w y;
    bounds = record {
      left = length_of (first_rect (row_runs w y));
      right = w - length_of (last_rect (row_runs w y));
    };
  }

  abbrev pub blank_row : ℕ → ℕ → Bool
  blank_row w y = is_empty_row w (first_rect (row_runs w y))

  update_last :
      (y : ℕ) (img : Image) (m : ImageRows)
      → Below y m
      → update_image_bounds y
          (with_rows img (m ++ (y, with_rects fresh_row (row_runs img.width y)) ∷ []))
        ≡ with_state img
            (m ++ (y, finished_row img.width y) ∷ [])
            (update_vertical (blank_row img.width y) y img.bounds)
  unfolding update_image_bounds
  update_last y img m h = rw (rows_get_last y (with_rects fresh_row (row_runs img.width y)) m h) (
      ap (λ rows. with_state img rows (update_vertical (blank_row img.width y) y img.bounds))
        (rows_set_last y (finished_row img.width y) _ m h))

  row_list_last :
      (w y : ℕ)
      → row_list (finished_row w) 0 y ++ (y, finished_row w y) ∷ []
        ≡ row_list (finished_row w) 0 (y + 1)
  row_list_last w y =
      let e : 0 + y ≡ y = omega arith in
      let size : suc y ≡ y + 1 = omega arith in
      ap (λ k. row_list (finished_row w) 0 y ++ (k, finished_row w k) ∷ []) (sym e)
      ∙ (sym (row_list_snoc (finished_row w) 0 y) ∙ ap (row_list (finished_row w) 0) size)

  encode_row :
      (w y : ℕ) (img : Image) (m : ImageRows) (colors : Palette)
      → 0 < w
      → Below y m
      → Extends (row_palette rgba_at w 0 y colors) p
      → encode_pixels rgba_at w 0 y (with_rows img m) colors ≡ (
        with_rows img (m ++ (y, with_rects fresh_row (row_runs w y)) ∷ []),
        row_palette rgba_at w 0 y colors,
      )
  encode_row zero y img m colors pos h e = absurd (omega arith)
  encode_row (suc n) y img m colors pos h e = encode_pixels_row n y img m colors h e

  row_state :
      (y : ℕ) (img : Image) (b : ImageBounds)
      → update_image_bounds y (
          with_rows
            (record img { bounds = b })
            (row_list (finished_row img.width) 0 y
              ++ (y, with_rects fresh_row (row_runs img.width y)) ∷ []))
        ≡ with_state img
            (row_list (finished_row img.width) 0 (y + 1))
            (update_vertical (blank_row img.width y) y b)
  row_state y img b =
      update_last y (record img { bounds = b }) (row_list (finished_row img.width) 0 y)
        (row_list-Below (finished_row img.width) 0 y y (omega arith))
      ∙ ap (λ m. with_state img m (update_vertical (blank_row img.width y) y b))
          (row_list_last img.width y)

  pub encode_rows_lem :
      (n y : ℕ) (img : Image) (b : ImageBounds) (colors : Palette)
      → 0 < img.width
      → Extends (rows_palette rgba_at img.width n y colors) p
      → encode_rows rgba_at n y (with_state img (row_list (finished_row img.width) 0 y) b) colors
        ≡ (
          with_state img
              (row_list (finished_row img.width) 0 (y + n))
              (vertical (blank_row img.width) n y b),
          rows_palette rgba_at img.width n y colors,
        )
  unfolding encode_rows vertical rows_palette
  encode_rows_lem zero y img b colors pos e =
      let same : y ≡ y + 0 = omega arith in
      ap (λ k. (with_state img (row_list (finished_row img.width) 0 k) b, colors)) same
  encode_rows_lem (suc n) y img b colors pos e =
      let w = img.width in
      let m = row_list (finished_row w) 0 y in
      let colors' = row_palette rgba_at w 0 y colors in
      let later = rows_palette-Extends rgba_at w n (y + 1) colors' in
      let row =
        encode_row w y (record img { bounds = b }) m colors pos
          (row_list-Below (finished_row w) 0 y y (omega arith)) (λ k i q. e k i (later k i q)) in
      let same : y + 1 + n ≡ y + suc n = omega arith in
      ap (λ s. encode_rows rgba_at n (y + 1) (update_image_bounds y s.0) s.1) row
      ∙ (ap (λ s. encode_rows rgba_at n (y + 1) s colors') (row_state y img b)
          ∙ (encode_rows_lem n (y + 1) img (update_vertical (blank_row w y) y b) colors' pos e
              ∙ ap
                  (λ k. (
                    with_state img (row_list (finished_row w) 0 k)
                        (vertical (blank_row w) n (y + 1) (update_vertical (blank_row w y) y b)),
                    rows_palette rgba_at w n (y + 1) colors',
                  ))
                  same))
