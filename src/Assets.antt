-- ===== src/Assets.antt =====
-- nouns-assets: the parts and seeds of nouns (packages/nouns-assets/src/utils.ts), beside the contract
-- that draws a seed on chain (packages/nouns-contracts/contracts/NounsSeeder.sol). `none` is an exception.
pub mod Numbers
pub mod Seeds
mod Tests
use sznouns.Prelude.{
  ℕ, ◌-◌, ◌+◌, ◌/◌, ◌%◌, ◌^◌, ◌>>=◌, Option, none, some, List, [], ◌∷◌, ◌++◌, ◌==◌, if◌then◌else◌,
  length, drop, get_elem?, Text, codes,
}
use sznouns.Assets.Numbers.{BigNumbers}

pub record NounSeed : Type 0 where
  pub background : ℕ
  pub body : ℕ
  pub accessory : ℕ
  pub head : ℕ
  pub glasses : ℕ

pub record EncodedPart : Type 0 where
  pub filename : Text
  pub text : Text

-- The lists of image-data.json.
pub record ImageData : Type 0 where
  pub bgcolors : List Text
  pub bodies : List EncodedPart
  pub accessories : List EncodedPart
  pub heads : List EncodedPart
  pub glasses : List EncodedPart

-- `none` is undefined.
pub record NounData : Type 0 where
  pub parts : List (Option EncodedPart)
  pub background : Option Text

unfoldable pub get_noun_data : ImageData → NounSeed → NounData
get_noun_data images seed = record {
  parts =
      get_elem? images.bodies seed.body
      ∷ get_elem? images.accessories seed.accessory
      ∷ get_elem? images.heads seed.head
      ∷ get_elem? images.glasses seed.glasses
      ∷ [];
  background = get_elem? images.bgcolors seed.background;
}

module _ (b : BigNumbers) where
  open b use {to_hex_string, from_text}

  -- A substring from a negative index is the whole text, as from 0.
  unfoldable pub shift_right_and_cast : ℕ → ℕ → ℕ → Text
  shift_right_and_cast value shift_amount uint_size =
      let shifted = to_hex_string (value / 2 ^ shift_amount) in
      codes "0x" ++ drop (length shifted - uint_size / 4) shifted

  -- A remainder by zero is an exception.
  abbrev pub checked_mod : ℕ → ℕ → Option ℕ
  checked_mod n count = if count == 0 then none else some (n % count)

  unfoldable pub get_pseudorandom_part : ℕ → ℕ → ℕ → Option ℕ
  get_pseudorandom_part pseudorandomness part_count shift_amount =
      from_text (shift_right_and_cast pseudorandomness shift_amount 48)
      >>= (λ n. checked_mod n part_count)

  -- From the hash of the block and the noun's id on.
  unfoldable pub get_noun_seed_from_hash : ImageData → ℕ → Option NounSeed
  get_noun_seed_from_hash images pseudorandomness = do
    background ← get_pseudorandom_part pseudorandomness (length images.bgcolors) 0
    body ← get_pseudorandom_part pseudorandomness (length images.bodies) 48
    accessory ← get_pseudorandom_part pseudorandomness (length images.accessories) 96
    head ← get_pseudorandom_part pseudorandomness (length images.heads) 144
    glasses ← get_pseudorandom_part pseudorandomness (length images.glasses) 192
    some (record {
      background = background;
      body = body;
      accessory = accessory;
      head = head;
      glasses = glasses;
    })

-- `generateSeed` of the contract: `uint48` keeps the low 48 bits.
abbrev pub uint48 : ℕ → ℕ
uint48 n = n % 2 ^ 48

abbrev pub contract_part : ℕ → ℕ → ℕ → Option ℕ
contract_part pseudorandomness count shift =
    if count == 0 then none else some (uint48 (uint48 (pseudorandomness / 2 ^ shift) % count))

unfoldable pub generate_seed : ImageData → ℕ → Option NounSeed
generate_seed images pseudorandomness = do
  background ← contract_part pseudorandomness (length images.bgcolors) 0
  body ← contract_part pseudorandomness (length images.bodies) 48
  accessory ← contract_part pseudorandomness (length images.accessories) 96
  head ← contract_part pseudorandomness (length images.heads) 144
  glasses ← contract_part pseudorandomness (length images.glasses) 192
  some (record {
    background = background;
    body = body;
    accessory = accessory;
    head = head;
    glasses = glasses;
  })
