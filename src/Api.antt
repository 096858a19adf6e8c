-- ===== src/Api.antt =====
-- nouns-api: the metadata of a token (packages/nouns-api/src/utils.ts) and the route that serves it
-- (packages/nouns-api/src/api.ts).
pub mod Cached
mod Tests
use sznouns.Prelude.{
  ℕ, ◌≡◌, Bool, true, false, Option, none, some, List, [], ◌∷◌, ◌++◌, if◌then◌else◌, drop, Text,
  text_eq, codes, ◌>>=◌,
}

pub record TokenMetadata : Type 0 where
  pub name : Text
  pub description : Text
  pub image : Text

-- Redis, `JSON` for metadata, the validator, base64, the contract of the token, `sharp` and the storage:
-- `none` is an exception.
pub record Services : Type 1 where
  pub Store : Type 0
  pub get : Text → Store → Option Text
  pub set : Text → Text → Store → Store
  pub get_set :
      (key value other : Text) (s : Store)
      → get other (set key value s) ≡ (if text_eq key other then some value else get other s)
  pub stringify : TokenMetadata → Text
  pub stringify_cons : (m : TokenMetadata) → (c : ℕ) × (t : Text) × (stringify m ≡ c ∷ t)
  pub parse : Text → Option TokenMetadata
  pub parse_stringify : (m : TokenMetadata) → parse (stringify m) ≡ some m
  pub is_int : ℕ → ℕ → Text → Bool
  pub from_base64 : Text → Text
  pub data_uri : Text → Option Text
  pub png : Text → Option Text
  pub store_blob : Text → Option Text

-- What the promise of `getTokenMetadata` gives.
pub data Outcome : Type 0 where
  rejected : Outcome
  nothing : Outcome
  metadata : TokenMetadata → Outcome

-- The response of the route; there is none where the handler rejects.
pub data Response : Type 0 where
  bad_request : Response
  failed : Response
  sent : TokenMetadata → Response
  unanswered : Response

unfoldable pub get_metadata_key : Text → Text
get_metadata_key token_id = codes "metadata_" ++ token_id

module _ (services : Services) where
  open services use {
    Store, get, set, stringify, parse, is_int, from_base64, data_uri, png, store_blob,
  }

  -- The data of the contract with the image stored.
  unfoldable pub built_metadata : Text → Option TokenMetadata
  built_metadata uri = do
    source ← parse (from_base64 (drop 29 uri))
    image ← png (from_base64 (drop 26 source.image))
    image_cid ← store_blob image
    some (record {
      name = source.name;
      description = source.description;
      image = codes "ipfs://" ++ image_cid;
    })

  abbrev pub parsed : Text → Outcome
  parsed text = elim (parse text) [ none ↦ rejected | some m ↦ metadata m ]

  abbrev pub stored : Text → Option TokenMetadata → Store → Outcome × Store
  stored key none s = (rejected, s)
  stored key (some m) s = (metadata m, set key (stringify m) s)

  -- Without an entry; an empty one is falsy.
  abbrev pub fetch_metadata : Text → Store → Outcome × Store
  fetch_metadata token_id s = elim (data_uri token_id) [
    | none ↦ (nothing, s)
    | some uri ↦ stored (get_metadata_key token_id) (built_metadata uri) s
  ]

  abbrev pub cached_or_fetched : Text → Option Text → Store → Outcome × Store
  cached_or_fetched token_id none s = fetch_metadata token_id s
  cached_or_fetched token_id (some []) s = fetch_metadata token_id s
  cached_or_fetched token_id (some (c ∷ t)) s = (parsed (c ∷ t), s)

  unfoldable pub get_token_metadata : Text → Store → Outcome × Store
  get_token_metadata token_id s = cached_or_fetched token_id (get (get_metadata_key token_id) s) s

  abbrev pub response : Outcome → Response
  response rejected = unanswered
  response nothing = failed
  response (metadata m) = sent m

  -- The route `/metadata/:tokenId`.
  unfoldable pub serve_metadata : Text → Store → Response × Store
  serve_metadata token_id s = elim (is_int 0 1000 token_id) [
    | false ↦ (bad_request, s)
    | true ↦ let (outcome, t) = get_token_metadata token_id s in (response outcome, t)
  ]

  unfoldable pub serve_all : List Text → Store → List Response × Store
  serve_all [] s = ([], s)
  serve_all (token_id ∷ token_ids) s =
      let (answer, t) = serve_metadata token_id s in
      let (answers, u) = serve_all token_ids t in (answer ∷ answers, u)
