-- ===== src/Subgraph/Memory.antt =====
-- A store in memory, to run the handlers on: the entities of a type with their ids, the last saved first.
use sznouns.Prelude.{
  ℕ, ◌≡◌, refl, Option, none, some, List, [], ◌∷◌, ◌++◌, if◌then◌else◌, Text, text_eq, codes,
}
use sznouns.Sdk.Hex.{to_padded_hex}
use sznouns.Sdk.Svg.Print.{decimal}
use sznouns.Subgraph.Graph.{Graph}
use sznouns.Subgraph.Entities.{Store}

unfoldable pub look : {V : Type 0} → Text → List (Text × V) → Option V
unfolding text_eq
look j [] = none
look j ((k, v) ∷ m) = let rest = look j m in if text_eq k j then some v else rest

abbrev pub address : ℕ → Text
address n = codes "0x" ++ to_padded_hex n 40

pub look-first :
    {V : Type 0} (k j : Text) (v : V) (m : List (Text × V))
    → look j ((k, v) ∷ m) ≡ (if text_eq k j then some v else look j m)
unfolding look
look-first k j v m = refl

abbrev pub memory : Graph
memory = record {
  Table = λ V. List (Text × V);
  load = look;
  save = λ k v m. (k, v) ∷ m;
  load_save = look-first;
  to_string = decimal;
  to_hex_string = address;
}

abbrev pub empty_store : Store memory
empty_store = record {
  seeds = [];
  nouns = [];
  bids = [];
  auctions = [];
  accounts = [];
  delegates = [];
  proposals = [];
  votes = [];
  governances = [];
  log = [];
}
