-- ===== src/Webapp/Titles.antt =====
-- Titles of proposals (packages/nouns-webapp/src/wrappers/nounsDao.ts), and the description that a page
-- proposes (packages/nouns-webapp/src/pages/CreateProposal/index.tsx).
pub mod Created
use sznouns.Prelude.{
  ℕ, zero, suc, ◌-◌, Bool, true, false, ◌&&◌, Option, none, some, List, [], ◌∷◌, ◌++◌, ◌==◌,
  if◌then◌else◌, Text, codes, is_space, skip_space, starts_with, ◌||◌,
}

-- `[^\n]+` as far as it goes.
abbrev pub line : Text → Text
line [] = []
line (c ∷ t) = if c == 10 then [] else c ∷ line t

-- The text from the first line feed on.
abbrev pub from_line_feed : Text → Text
from_line_feed [] = []
from_line_feed (c ∷ t) = if c == 10 then c ∷ t else from_line_feed t

-- A title after white space, of which it takes as little as it can.
abbrev pub title_after : Text → Option Text
title_after [] = none
title_after (c ∷ t) =
    if is_space c
    then elim (title_after t) [
      | some title ↦ some title
      | none ↦ if c == 10 then none else some (line (c ∷ t))
    ]
    else some (line (c ∷ t))

-- One white space, and the title.
abbrev pub spaced_title : Text → Option Text
spaced_title [] = none
spaced_title (c ∷ t) = if is_space c then title_after t else none

abbrev pub drop_hashes : ℕ → Text → Text
drop_hashes zero t = t
drop_hashes (suc n) [] = []
drop_hashes (suc n) (c ∷ t) = if c == 35 then drop_hashes n t else c ∷ t

abbrev pub hash_title : Text → Option Text
hash_title [] = none
hash_title (c ∷ t) = if c == 35 then spaced_title (drop_hashes 5 t) else none

-- `body.match(/^\s*#{1,6}\s+([^\n]+)/)`, its group.
unfoldable pub extract_hash_title : Text → Option Text
extract_hash_title body = hash_title (skip_space body)

abbrev pub is_underlined : Text → Bool
is_underlined t = starts_with (codes "===") t || starts_with (codes "---") t

abbrev pub underlined_title : Text → Text → Option Text
underlined_title [] rest = none
underlined_title (c ∷ title) [] = none
underlined_title (c ∷ title) (d ∷ rest) = if is_underlined rest then some (c ∷ title) else none

-- `body.match(/^\s*([^\n]+)\n(={3,25}|-{3,25})/)`, its first group: after as much white space as can be.
unfoldable pub extract_equal_title : Text → Option Text
extract_equal_title [] = none
extract_equal_title (c ∷ t) =
    let here = underlined_title (line (c ∷ t)) (from_line_feed (c ∷ t)) in
    if is_space c
    then elim (extract_equal_title t) [ some title ↦ some title | none ↦ here ]
    else here

abbrev pub or_else : Option Text → Option Text → Option Text
or_else (some title) other = some title
or_else none other = other

unfoldable pub extract_title : Option Text → Option Text
extract_title none = none
extract_title (some []) = none
extract_title (some (c ∷ t)) = or_else (extract_hash_title (c ∷ t)) (extract_equal_title (c ∷ t))

-- `text.replace(/dd/g, '')` for a character `d`.
unfoldable pub remove_pairs : ℕ → Text → Text
remove_pairs d [] = []
remove_pairs d (a ∷ []) = a ∷ []
remove_pairs d (a ∷ b ∷ t) =
    let pair = (a == d) && (b == d) in if pair then remove_pairs d t else a ∷ remove_pairs d (b ∷ t)

abbrev pub remove_bold : Option Text → Option Text
remove_bold none = none
remove_bold (some t) = some (remove_pairs 42 t)

abbrev pub remove_italics : Option Text → Option Text
remove_italics none = none
remove_italics (some t) = some (remove_pairs 95 t)

abbrev pub remove_markdown_style : Option Text → Option Text
remove_markdown_style t = remove_bold (remove_italics t)

-- `text.replace(/\\n/g, '\n')`
unfoldable pub unescape : Text → Text
unescape [] = []
unescape (a ∷ []) = a ∷ []
unescape (a ∷ b ∷ t) = if (a == 92) && (b == 110) then 10 ∷ unescape t else a ∷ unescape (b ∷ t)

abbrev pub map_text : (Text → Text) → Option Text → Option Text
map_text f none = none
map_text f (some t) = some (f t)

abbrev pub or_untitled : Option Text → Text
or_untitled none = codes "Untitled"
or_untitled (some t) = t

-- The title of a proposal with this description.
unfoldable pub title_of : Option Text → Text
title_of description =
    or_untitled (remove_markdown_style (extract_title (map_text unescape description)))

-- What `handleCreateProposal` proposes.
unfoldable pub created_description : Text → Text → Text
created_description title body = 35 ∷ 32 ∷ title ++ 10 ∷ 10 ∷ body
