-- ===== src/Sdk/Roundtrip/Finished.antt =====
-- From the loops of `encode` to its text (packages/nouns-sdk/src/image/image.ts): blank rows are deleted,
-- the side bounds are set, and the text is put together.
use sznouns.Prelude.{
  ℕ, zero, suc, ◌+◌, ◌-◌, ◌<◌, ◌≡◌, refl, ap, ◌∙◌, true, false, Bool, ◌&&◌, Option, none, List,
  arith, ◌==◌, if◌then◌else◌, length, Text, codes,
}
use sznouns.Sdk.Palette.{Palette}
use sznouns.Sdk.Image.{
  Image, ImageRow, ImageBounds, Pixels, new_image, rows_get, delete_from, delete_down,
  delete_empty_rows, is_empty_row, first_rect,
}
use sznouns.Sdk.Image.Rows.{
  row_list, row_list_cong, delete_from-row_list, delete_down-row_list, enumerate,
  rows_values-row_list,
}
use sznouns.Sdk.Image.Bounds.{vertical, Vertical, nothing, vertical-Vertical}
use sznouns.Sdk.Encode.{
  min_left, max_right, get_encoded_bounds, encode_all_rows, encode_rows, finish, to_rle, rects_of,
}
use sznouns.Sdk.Encode.Loops.{with_state, finished_row, blank_row, rows_palette, encode_rows_lem}
use sznouns.Sdk.Roundtrip.Rows.{IsBordered, clear_row_blank}

rows_get_later : (g : ℕ → ImageRow) (i n : ℕ) → 0 < i → rows_get 0 (row_list g i n) ≡ none
unfolding rows_get
rows_get_later g i zero h = refl
rows_get_later g i (suc n) h =
    let other : (i == 0) ≡ false = ground arith in
    rw other (rows_get_later g (i + 1) n (omega arith))

-- Deletion keeps the rows from the top bound to the bottom bound.
pub delete_empty_rows_lem :
    (g : ℕ → ImageRow) (img : Image) (b : ImageBounds) (n : ℕ)
    → b.bottom ≡ b.top + n
    → b.bottom < img.height
    → delete_empty_rows (with_state img (row_list g 0 (0 + img.height)) b)
      ≡ with_state img (row_list g b.top (suc n)) b
unfolding delete_empty_rows
delete_empty_rows_lem g img b n e h =
    let k = img.height - 1 - b.bottom in
    let size : 0 + img.height ≡ b.top + (suc n + k) = omega arith in
    let from : 0 + b.top ≡ b.top = omega arith in
    ap (λ m. with_state img m b)
      (ap (λ m. delete_down k b.bottom (delete_from b.top 0 m)) (row_list_cong g {i = 0} refl size)
        ∙ (ap (delete_down k b.bottom) (
              delete_from-row_list g b.top 0 (suc n + k)
              ∙ row_list_cong g {n = suc n + k} from refl)
            ∙ (ap (λ j. delete_down k j (row_list g b.top (suc n + k))) e
                ∙ delete_down-row_list g b.top n k)))

abbrev pub side_bounds : ImageBounds → List ImageRow → ImageBounds
side_bounds b values = record b { left = min_left values; right = max_right values }

-- With rows from `b.top` on, none of them row 0, the text is that of the bounds and of all rows.
pub finish_lem :
    (g : ℕ → ImageRow) (img : Image) (b : ImageBounds) (n : ℕ)
    → 0 < b.top
    → (finish (with_state img (row_list g b.top (suc n)) b)).1
      ≡ encode_all_rows img.width
          (side_bounds b (enumerate g b.top (suc n)))
          (get_encoded_bounds (side_bounds b (enumerate g b.top (suc n))))
          (enumerate g b.top (suc n))
unfolding finish is_empty_row
finish_lem g img b n pos =
    let rows = row_list g b.top (suc n) in
    ap (λ vs. (finish_with vs (rows_get 0 rows)).1) (rows_values-row_list g b.top (suc n))
    ∙ (ap (λ r. (finish_with (enumerate g b.top (suc n)) r).1) (rows_get_later g b.top (suc n) pos)
        ∙ text_of)
  where
    finish_with : List ImageRow → Option ImageRow → Image × Text
    finish_with values r =
        let bounds = if length values == 0 then b else side_bounds b values in
        let img' = record img { bounds = bounds; rows = row_list g b.top (suc n) } in
        if (length values == 1) && is_empty_row img.width (first_rect (rects_of r))
        then (img', codes "0x0000000000")
        else (img', encode_all_rows img.width bounds (get_encoded_bounds bounds) values)

    text_of :
        (finish_with (enumerate g b.top (suc n)) none).1
        ≡ encode_all_rows img.width
            (side_bounds b (enumerate g b.top (suc n)))
            (get_encoded_bounds (side_bounds b (enumerate g b.top (suc n))))
            (enumerate g b.top (suc n))
    text_of =
        let values = enumerate g b.top (suc n) in
        let filled : (length values == 0) ≡ false = ground arith in
        let kept : ((length values == 1) && false) ≡ false = ground arith in rw (kept, filled)

-- Where only row 0 is left and it is blank, the text is that of the empty image.
pub finish_blank :
    (g : ℕ → ImageRow) (img : Image) (b : ImageBounds)
    → is_empty_row img.width (first_rect (g 0).rects) ≡ true
    → (finish (with_state img (row_list g 0 1) b)).1 ≡ codes "0x0000000000"
unfolding finish rows_get
finish_blank g img b blank = rw blank

module _ (rgba_at : Pixels) (w h : ℕ) (colors : Palette) where
  abbrev pub final_palette : Palette
  final_palette = rows_palette rgba_at w h 0 colors

  abbrev pub row_at : ℕ → ImageRow
  row_at = finished_row rgba_at final_palette w

  abbrev pub blank_at : ℕ → Bool
  blank_at = blank_row rgba_at final_palette w

  abbrev pub no_bounds : ImageBounds
  no_bounds = record { top = 0; right = 0; bottom = 0; left = 0 }

  pub final_vertical : ImageBounds
  final_vertical = vertical blank_at h 0 no_bounds

  module _ (ok : IsBordered rgba_at w h) where
    first_blank : blank_at 0 ≡ true
    first_blank = clear_row_blank rgba_at final_palette w ok.wide 0 ok.first_row

    pub final-Vertical : Vertical blank_at h final_vertical
    unfolding final_vertical
    final-Vertical =
        let e : 0 + h ≡ h = omega arith in
        rw e at (
          vertical-Vertical blank_at h 0 no_bounds first_blank
            (nothing refl refl (λ j p q. absurd (omega arith))))

    after_loops :
        encode_rows rgba_at h 0 (new_image w h) colors
        ≡ (with_state (new_image w h) (row_list row_at 0 (0 + h)) final_vertical, final_palette)
    unfolding new_image final_vertical
    after_loops =
        encode_rows_lem rgba_at final_palette h 0 (new_image w h) no_bounds colors ok.wide
          (λ k i e. e)

    -- The palette and the text of a new image.
    pub to_rle_new :
        ((to_rle rgba_at (new_image w h) colors).1 ≡ final_palette)
        × ((to_rle rgba_at (new_image w h) colors).2
            ≡ (finish (
                delete_empty_rows
                  (with_state (new_image w h) (row_list row_at 0 (0 + h)) final_vertical))).1)
    unfolding to_rle new_image
    to_rle_new =
        (ap (λ s. s.1) after_loops, ap (λ s. (finish (delete_empty_rows s.0)).1) after_loops)
