-- ===== src/Sdk/Palette/Laws.antt =====
-- The palette gives every colour its position (packages/nouns-sdk/src/image/image.ts).
use sznouns.Prelude.{
  ℕ, suc, ◌≡◌, inl, inr, refl, ap, none, some, [], ◌∷◌, ◌++◌, arith, if◌then◌else◌, length,
  get_elem?, Text, text_eq, text_eq_iff, Option-cases, Bool-cases, get_elem?-append_some,
  get_elem?-append_self,
}
use sznouns.Sdk.Palette.{Palette, color_get, color_set, color_ensure, color_keys}

pub color_get-color_set :
    (k j : Text) (v : ℕ) (m : Palette)
    → color_get j (color_set k v m) ≡ (if text_eq k j then some v else color_get j m)
unfolding color_get color_set
color_get-color_set k j v [] = refl
color_get-color_set k j v ((i, w) ∷ m) =
    ground (arith, text_eq_iff k j, text_eq_iff i k, text_eq_iff i j, color_get-color_set k j v m)

-- A colour that is there is found at its index also in the palette to come.
abbrev pub Extends : Palette → Palette → Type 0
Extends m p = (k : Text) (i : ℕ) → color_get k m ≡ some i → color_get k p ≡ some i

pub color_ensure-Extends : (key : Text) (m : Palette) → Extends m (color_ensure key m)
unfolding color_ensure
color_ensure-Extends key m k i h =
    ground (arith, color_get-color_set key k (length m) m, text_eq_iff key k)

pub color_get-color_ensure_self :
    (key : Text) (m : Palette) → (i : ℕ) × (color_get key (color_ensure key m) ≡ some i)
unfolding color_ensure
color_get-color_ensure_self key m = elim (Option-cases (color_get key m)) [
  | inl new ↦
      (length m, ground (arith, color_get-color_set key key (length m) m, text_eq_iff key key))
  | inr (i, old) ↦ (i, ground arith)
]

pub length-color_keys : (m : Palette) → length (color_keys m) ≡ length m
length-color_keys [] = refl
length-color_keys ((k, v) ∷ m) = ap suc (length-color_keys m)

color_keys-color_set_new :
    (k : Text) (v : ℕ) (m : Palette)
    → color_get k m ≡ none
    → color_keys (color_set k v m) ≡ color_keys m ++ k ∷ []
unfolding color_get color_set
color_keys-color_set_new k v [] h = refl
color_keys-color_set_new k v ((j, w) ∷ m) h = elim (Bool-cases (text_eq j k)) [
  | inl same ↦ absurd (ground arith)
  | inr other ↦ rw other (ap (◌∷◌ j) (color_keys-color_set_new k v m (ground arith)))
]

-- The index of a colour is its position among the keys.
pub record IsIndexed (m : Palette) : Type 0 where
  pub key_at : (k : Text) (i : ℕ) → color_get k m ≡ some i → get_elem? (color_keys m) i ≡ some k

color_set_new-IsIndexed :
    (key : Text) (m : Palette)
    → color_get key m ≡ none
    → IsIndexed m
    → IsIndexed (color_set key (length m) m)
color_set_new-IsIndexed key m new h = record {
  key_at = λ k i e. rw (color_keys-color_set_new key (length m) m new) (found k i e);
}
  where
    old :
        (k : Text) (i : ℕ)
        → color_get k m ≡ some i
        → get_elem? (color_keys m ++ key ∷ []) i ≡ some k
    old k i e = get_elem?-append_some (color_keys m) (key ∷ []) i (h.key_at k i e)

    found :
        (k : Text) (i : ℕ)
        → color_get k (color_set key (length m) m) ≡ some i
        → get_elem? (color_keys m ++ key ∷ []) i ≡ some k
    found k i e = elim (Bool-cases (text_eq key k)) [
      | inl same ↦
          let at : i ≡ length (color_keys m) =
            ground (arith, color_get-color_set key k (length m) m, length-color_keys m) in
          let eq : key ≡ k = (text_eq_iff key k).0 same in
          rw (at, ← eq) (get_elem?-append_self (color_keys m) [] key)
      | inr other ↦ old k i (ground (arith, color_get-color_set key k (length m) m))
    ]

pub color_ensure-IsIndexed :
    (key : Text) (m : Palette) → IsIndexed m → IsIndexed (color_ensure key m)
unfolding color_ensure
color_ensure-IsIndexed key m h = elim (Option-cases (color_get key m)) [
  | inl new ↦ rw (new, color_ensure) (color_set_new-IsIndexed key m new h)
  | inr (i, old) ↦ rw (old, color_ensure) h
]
