-- ===== src/Sdk/Collection.antt =====
-- A collection of encoded images (packages/nouns-sdk/src/image/png-collection-encoder.ts). The PNG reader
-- is not part of the repository: an image is its size and its pixels. Writing the file is left out.
use sznouns.Prelude.{
  ℕ, ◌+◌, Bool, false, Option, none, some, List, [], ◌∷◌, ◌++◌, length, ◌==◌, ◌⊎◌, inl, inr,
  if◌then◌else◌, Text, text_eq, codes, starts_with,
}
use sznouns.Sdk.Palette.{Palette, color_set, color_keys}
use sznouns.Sdk.Image.{Pixels, new_image}
use sznouns.Sdk.Encode.{to_rle}
use sznouns.Sdk.Glasses.{GlassesError, to_glasses_rle}

pub record PngImage : Type 0 where
  pub width : ℕ
  pub height : ℕ
  pub rgba_at : Pixels

-- `images` is a `Map` and `folders` an object, in the order of insertion; a folder's name is not a number.
pub record PngCollectionEncoder : Type 0 where
  pub colors : Palette
  pub images : List (Text × Text)
  pub folders : List (Text × List Text)

-- `colors?.forEach((color, index) => this._colors.set(color, index))`
unfoldable pub populate : ℕ → List Text → Palette → Palette
populate index [] colors = colors
populate index (c ∷ cs) colors = populate (index + 1) cs (color_set c index colors)

unfoldable pub new_encoder : List Text → PngCollectionEncoder
unfolding populate
new_encoder colors = record { colors = populate 0 colors (([], 0) ∷ []); images = []; folders = [] }

-- `images.set(name, rle)`
unfoldable pub image_set : Text → Text → List (Text × Text) → List (Text × Text)
image_set name rle [] = (name, rle) ∷ []
image_set name rle ((k, v) ∷ images) =
    let rest = image_set name rle images in
    if text_eq k name then (k, rle) ∷ images else (k, v) ∷ rest

-- `(folders[folder] ||= []).push(name)`
unfoldable pub folder_push : Text → Text → List (Text × List Text) → List (Text × List Text)
folder_push folder name [] = (folder, name ∷ []) ∷ []
folder_push folder name ((k, names) ∷ folders) =
    let rest = folder_push folder name folders in
    if text_eq k folder then (k, names ++ name ∷ []) ∷ folders else (k, names) ∷ rest

-- An empty folder is falsy.
abbrev push_if_folder : Text → Text → List (Text × List Text) → List (Text × List Text)
push_if_folder [] name folders = folders
push_if_folder (c ∷ folder) name folders = folder_push (c ∷ folder) name folders

abbrev pub store_image :
    Text → Text → Palette → Text → PngCollectionEncoder → PngCollectionEncoder × Text
store_image name folder colors rle encoder = (
  record {
    colors = colors;
    images = image_set name rle encoder.images;
    folders = push_if_folder folder name encoder.folders;
  },
  rle,
)

-- No folder is the empty text.
unfoldable pub encode_image :
    Text → PngImage → Text → PngCollectionEncoder → GlassesError ⊎ (PngCollectionEncoder × Text)
encode_image name png folder encoder =
    if starts_with (codes "glasses") name
    then elim (to_glasses_rle png.rgba_at encoder.colors) [
      | inl e ↦ inl e
      | inr (colors, rle) ↦ inr (store_image name folder colors rle encoder)
    ]
    else let (image, colors, rle) =
        to_rle png.rgba_at (new_image png.width png.height) encoder.colors in
      inr (store_image name folder colors rle encoder)

-- `images.get(filename)` and `images.delete(filename)`
unfoldable pub image_get : Text → List (Text × Text) → Option Text
image_get name [] = none
image_get name ((k, v) ∷ images) =
    let rest = image_get name images in if text_eq k name then some v else rest

unfoldable pub image_delete : Text → List (Text × Text) → List (Text × Text)
image_delete name [] = []
image_delete name ((k, v) ∷ images) =
    let rest = image_delete name images in if text_eq k name then rest else (k, v) ∷ rest

-- The files of a folder with the images that remain; a file that is there twice has no data then.
unfoldable pub write_folder :
    List Text → List (Text × Text) → List (Text × Option Text) × List (Text × Text)
unfolding image_get image_delete
write_folder [] images = ([], images)
write_folder (filename ∷ filenames) images =
    let (files, rest) = write_folder filenames (image_delete filename images) in
    ((filename, image_get filename images) ∷ files, rest)

unfoldable pub write_folders :
    List (Text × List Text)
    → List (Text × Text)
    → List (Text × List (Text × Option Text)) × List (Text × Text)
unfolding write_folder
write_folders [] images = ([], images)
write_folders ((folder, filenames) ∷ folders) images =
    let (files, images') = write_folder filenames images in
    let (written, rest) = write_folders folders images' in ((folder, files) ∷ written, rest)

abbrev pub root_files : List (Text × Text) → List (Text × Option Text)
root_files [] = []
root_files ((k, v) ∷ images) = (k, some v) ∷ root_files images

-- `data.root = …`: a folder of that name is overwritten in its place.
unfoldable pub set_root :
    List (Text × Option Text)
    → List (Text × List (Text × Option Text))
    → List (Text × List (Text × Option Text))
set_root files [] = (codes "root", files) ∷ []
set_root files ((k, old) ∷ folders) =
    let rest = set_root files folders in
    if text_eq k (codes "root") then (k, files) ∷ folders else (k, old) ∷ rest

-- `format(flatten)`
unfoldable pub format : Bool → PngCollectionEncoder → List (Text × List (Text × Option Text))
unfolding write_folders set_root
format flatten encoder =
    let (written, rest) = write_folders (if flatten then [] else encoder.folders) encoder.images in
    if length rest == 0 then written else set_root (root_files rest) written

-- `data`
unfoldable pub collection_data :
    PngCollectionEncoder → List Text × List (Text × List (Text × Option Text))
unfolding format
collection_data encoder = (color_keys encoder.colors, format false encoder)
