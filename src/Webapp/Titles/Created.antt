-- ===== src/Webapp/Titles/Created.antt =====
-- The title of a proposal that packages/nouns-webapp/src/pages/CreateProposal/index.tsx created.
use sznouns.Prelude.{ℕ, ◌≡◌, refl, ap, false, some, [], ◌∷◌, ◌++◌, All, ◌==◌, Text, is_space}
use sznouns.Webapp.Titles.{
  line, title_after, extract_hash_title, extract_title, or_else, extract_equal_title, remove_pairs,
  unescape, title_of, created_description,
}

-- A character with no meaning in titles.
abbrev pub IsPlain : ℕ → Type 0
IsPlain c = (c == 10 ≡ false) × (c == 92 ≡ false) × (c == 42 ≡ false) × (c == 95 ≡ false)

line-append : (t rest : Text) → All IsPlain t → line (t ++ 10 ∷ rest) ≡ t
line-append [] rest h = refl
line-append (c ∷ t) rest ((e, _, _, _), h) = rw e (ap (◌∷◌ c) (line-append t rest h))

remove_pairs_plain : (d : ℕ) (t : Text) → All (λ c. c == d ≡ false) t → remove_pairs d t ≡ t
unfolding remove_pairs
remove_pairs_plain d [] h = refl
remove_pairs_plain d (a ∷ []) h = refl
remove_pairs_plain d (a ∷ b ∷ t) (e, h) = rw e (ap (◌∷◌ a) (remove_pairs_plain d (b ∷ t) h))

unescape-append :
    (t rest : Text) → All IsPlain t → unescape (t ++ 10 ∷ rest) ≡ t ++ unescape (10 ∷ rest)
unfolding unescape
unescape-append [] rest h = refl
unescape-append (a ∷ []) rest ((_, e, _, _), h) = rw e refl
unescape-append (a ∷ b ∷ t) rest ((_, e, _, _), h) =
    rw e (ap (◌∷◌ a) (unescape-append (b ∷ t) rest h))

unescape_line_feed : (t : Text) → (u : Text) × (unescape (10 ∷ t) ≡ 10 ∷ u)
unfolding unescape
unescape_line_feed [] = ([], refl)
unescape_line_feed (b ∷ t) = (unescape (b ∷ t), refl)

All-stars : (t : Text) → All IsPlain t → All (λ c. c == 42 ≡ false) t
All-stars [] h = tt
All-stars (c ∷ t) ((_, _, e, _), h) = (e, All-stars t h)

All-underscores : (t : Text) → All IsPlain t → All (λ c. c == 95 ≡ false) t
All-underscores [] h = tt
All-underscores (c ∷ t) ((_, _, _, e), h) = (e, All-underscores t h)

extract_title_lem :
    (c : ℕ) (t rest : Text)
    → is_space c ≡ false
    → All IsPlain (c ∷ t)
    → extract_title (some (35 ∷ 32 ∷ c ∷ t ++ 10 ∷ rest)) ≡ some (c ∷ t)
unfolding extract_title extract_hash_title
extract_title_lem c t rest s h =
    let body = 35 ∷ 32 ∷ c ∷ t ++ 10 ∷ rest in
    let title : title_after (c ∷ t ++ 10 ∷ rest) ≡ some (c ∷ t) =
      rw s (ap some (line-append (c ∷ t) rest h)) in
    ap (λ o. or_else o (extract_equal_title body)) title

-- The page of a proposal that was created with a title and any body shows that title, if it begins
-- with no white space and has no line feed, backslash, asterisk or underscore.
pub title_of-created_description :
    (c : ℕ) (t body : Text)
    → is_space c ≡ false
    → All IsPlain (c ∷ t)
    → title_of (some (created_description (c ∷ t) body)) ≡ c ∷ t
unfolding title_of created_description unescape
title_of-created_description c t body s h =
    let (u, e) = unescape_line_feed (10 ∷ body) in
    let there = unescape-append (c ∷ t) (10 ∷ body) h in
    rw
      (
        there,
        e,
        extract_title_lem c t u s h,
        remove_pairs_plain 95 (c ∷ t) (All-underscores (c ∷ t) h),
      )
      (remove_pairs_plain 42 (c ∷ t) (All-stars (c ∷ t) h))
