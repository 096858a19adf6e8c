-- ===== src/Sdk/Image.antt =====
-- The class `Image` (packages/nouns-sdk/src/image/image.ts): an image as runs of equal pixels, row by
-- row, inside bounds. The object is a record that the methods return anew.
pub mod Runs
pub mod Edges
pub mod Bounds
pub mod Rows
use sznouns.Prelude.{
  ℕ, zero, suc, ◌+◌, ◌-◌, Bool, false, not, ◌&&◌, Option, none, some, List, [], ◌∷◌, ltb, ◌==◌,
  if◌then◌else◌, Text,
}

pub record RgbaColor : Type 0 where
  pub r : ℕ
  pub g : ℕ
  pub b : ℕ
  pub a : ℕ

pub record Rect : Type 0 where
  pub length : ℕ
  pub color_index : ℕ

pub record LineBounds : Type 0 where
  pub left : ℕ
  pub right : ℕ

pub record ImageRow : Type 0 where
  pub rects : List Rect
  pub bounds : LineBounds

pub record ImageBounds : Type 0 where
  pub top : ℕ
  pub right : ℕ
  pub bottom : ℕ
  pub left : ℕ

-- An object with integer keys, which are enumerated in ascending order.
abbrev pub ImageRows : Type 0
ImageRows = List (ℕ × ImageRow)

pub record Image : Type 0 where
  pub width : ℕ
  pub height : ℕ
  pub rows : ImageRows
  pub bounds : ImageBounds
  pub rle : Option Text

abbrev pub Pixels : Type 0
Pixels = ℕ → ℕ → RgbaColor

unfoldable pub rows_get : ℕ → ImageRows → Option ImageRow
rows_get y [] = none
rows_get y ((k, row) ∷ m) = if k == y then some row else rows_get y m

unfoldable pub rows_set : ℕ → ImageRow → ImageRows → ImageRows
rows_set y row [] = (y, row) ∷ []
rows_set y row ((k, old) ∷ m) =
    if k == y
    then (k, row) ∷ m
    else if ltb y k
    then (y, row) ∷ (k, old) ∷ m
    else (k, old) ∷ rows_set y row m

-- `delete rows[y]`
unfoldable pub rows_delete : ℕ → ImageRows → ImageRows
rows_delete y [] = []
rows_delete y ((k, row) ∷ m) =
    let rest = rows_delete y m in if k == y then rest else (k, row) ∷ rest

-- `Object.values(rows)`
unfoldable pub rows_values : ImageRows → List ImageRow
rows_values [] = []
rows_values ((k, row) ∷ m) = row ∷ rows_values m

unfoldable pub new_image : ℕ → ℕ → Image
new_image width height = record {
  width = width;
  height = height;
  rows = [];
  bounds = record { top = 0; right = 0; bottom = 0; left = 0 };
  rle = none;
}

abbrev empty_row : ImageRow
empty_row = record { rects = []; bounds = record { left = 0; right = 0 } }

abbrev row_or_empty : Option ImageRow → ImageRow
row_or_empty none = empty_row
row_or_empty (some row) = row

-- One pixel more at the end of a row's runs.
unfoldable pub push_pixel : ℕ → List Rect → List Rect
push_pixel c [] = record { length = 1; color_index = c } ∷ []
push_pixel c (r ∷ []) =
    if r.color_index == c
    then record r { length = r.length + 1 } ∷ []
    else r ∷ record { length = 1; color_index = c } ∷ []
push_pixel c (r ∷ s ∷ rs) = r ∷ push_pixel c (s ∷ rs)

unfoldable pub append_pixel_to_rect : ℕ → ℕ → Image → Image
append_pixel_to_rect c y img =
    let row = row_or_empty (rows_get y img.rows) in
    record img { rows = rows_set y (record row { rects = push_pixel c row.rects }) img.rows }

-- Whether a row's first run fills the row and is transparent; `none` is an undefined run.
unfoldable pub is_empty_row : ℕ → Option Rect → Bool
is_empty_row width none = false
is_empty_row width (some r) = (r.length == width) && (r.color_index == 0)

abbrev pub first_rect : List Rect → Option Rect
first_rect [] = none
first_rect (r ∷ rs) = some r

abbrev pub last_rect : List Rect → Option Rect
last_rect [] = none
last_rect (r ∷ []) = some r
last_rect (r ∷ s ∷ rs) = last_rect (s ∷ rs)

abbrev pub length_of : Option Rect → ℕ
length_of none = 0
length_of (some r) = r.length

-- The top and bottom bounds after row `y`, which is empty or not. Where `y - 1` is taken,
-- `0 < top ≤ y`.
unfoldable pub update_vertical : Bool → ℕ → ImageBounds → ImageBounds
update_vertical empty y b =
    let b' = if not empty && (b.top == 0) then record b { top = y } else b in
    if b'.top == 0
    then b'
    else if empty
    then (if b'.bottom == 0 then record b' { bottom = y - 1 } else b')
    else if y == 31
    then record b' { bottom = y }
    else record b' { bottom = 0 }

-- A row whose `rects` are missing is a TypeError in the source; `encode` calls this for rows with
-- at least one pixel.
unfoldable pub update_image_bounds : ℕ → Image → Image
unfolding update_vertical is_empty_row
update_image_bounds y img =
    let row = row_or_empty (rows_get y img.rows) in
    record img {
      bounds = update_vertical (is_empty_row img.width (first_rect row.rects)) y img.bounds;
      rows =
          rows_set y
            (record row {
              bounds = record {
                left = length_of (first_rect row.rects);
                right = img.width - length_of (last_rect row.rects);
              };
            })
            img.rows;
    }

-- `for (let i = 0; i < n; i++) delete rows[i];`, over the `todo` rounds from `i` on.
unfoldable pub delete_from : ℕ → ℕ → ImageRows → ImageRows
delete_from zero i rows = rows
delete_from (suc todo) i rows = delete_from todo (i + 1) (rows_delete i rows)

-- `for (let i = bottom + todo; i > bottom; i--) delete rows[i];`
unfoldable pub delete_down : ℕ → ℕ → ImageRows → ImageRows
delete_down zero bottom rows = rows
delete_down (suc todo) bottom rows = delete_down todo bottom (rows_delete (bottom + suc todo) rows)

unfoldable pub delete_empty_rows : Image → Image
unfolding delete_from delete_down
delete_empty_rows img = record img {
  rows =
      delete_down (img.height - 1 - img.bounds.bottom) img.bounds.bottom
        (delete_from img.bounds.top 0 img.rows);
}
