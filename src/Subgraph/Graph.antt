-- ===== src/Subgraph/Graph.antt =====
-- What the handlers use of The Graph's runtime, which is not part of the repository: a table for every
-- entity type, and the texts of numbers and addresses.
use sznouns.Prelude.{
  ℕ, ◌≡◌, sym, ap, ◌∙◌, Option, some, arith, if◌then◌else◌, Text, text_eq, text_eq_iff, Bool-cases,
  inl, inr,
}

pub record Graph : Type 1 where
  pub Table : Type 0 → Type 0
  -- `Entity.load(id)`, which gives a copy of what was saved last, or null.
  pub load : {V : Type 0} → Text → Table V → Option V
  -- `entity.save()`
  pub save : {V : Type 0} → Text → V → Table V → Table V
  pub load_save :
      {V : Type 0} (k j : Text) (v : V) (m : Table V)
      → load j (save k v m) ≡ (if text_eq k j then some v else load j m)
  -- `n.toString()` of a token or proposal id, and `address.toHexString()`.
  pub to_string : ℕ → Text
  pub to_hex_string : ℕ → Text

pub load_save_self :
    (g : Graph) {V : Type 0} (k : Text) (v : V) (m : g.Table V) → g.load k (g.save k v m) ≡ some v
load_save_self g k v m = ground (arith, g.load_save k k v m, text_eq_iff k k)

-- Every entity is stored under its own id.
pub record IsKeyed (g : Graph) {V : Type 0} (id : V → Text) (m : g.Table V) : Type 0 where
  pub own_id : (k : Text) (v : V) → g.load k m ≡ some v → id v ≡ k

pub save-IsKeyed :
    (g : Graph) {V : Type 0} (id : V → Text) (k : Text) (v : V) (m : g.Table V)
    → id v ≡ k
    → IsKeyed g id m
    → IsKeyed g id (g.save k v m)
save-IsKeyed g {V} id k v m same h = record {
  own_id = λ j w e. elim (Bool-cases (text_eq k j)) [
    | inl at ↦
        let found : v ≡ w = ground (arith, g.load_save k j v m) in
        let key : k ≡ j = (text_eq_iff k j).0 at in ap id (sym found) ∙ (same ∙ key)
    | inr other ↦ h.own_id j w (ground (arith, g.load_save k j v m))
  ];
}
