-- ===== src/Api/Tests.antt =====
-- A run of the route of packages/nouns-api/src/api.ts, on services that keep texts as they are.
use sznouns.Prelude.{
  ◌≡◌, refl, Option, none, some, List, [], ◌∷◌, ◌++◌, inl, map, length, leb, Text, text_eq, codes,
  if◌then◌else◌,
}
use sznouns.Prelude.Codec.{put, read, after, read-put, after_put}
use sznouns.Api.{TokenMetadata, Services, sent, failed, bad_request, built_metadata, serve_all}
use sznouns.Api.Cached.{IsCache, answer_of, serve_all-answers}

abbrev encode : TokenMetadata → Text
encode m = put m.name (put m.description m.image)

abbrev decode : Text → Option TokenMetadata
decode t = some (record { name = read t; description = read (after t); image = after (after t) })

decode-encode : (m : TokenMetadata) → decode (encode m) ≡ some m
decode-encode m =
    rw
      (
        read-put m.name (put m.description m.image),
        after_put m.name (put m.description m.image),
        read-put m.description m.image,
        after_put m.description m.image,
      )
      refl

abbrev noun_metadata : TokenMetadata
noun_metadata = record {
  name = codes "Noun 7";
  description = codes "d";
  image = codes "data:image/svg+xml;base64,PHN2Zy8+";
}

-- The contract has the token 7 only.
abbrev uri_of : Text → Option Text
uri_of token_id =
    if text_eq token_id (codes "7")
    then some (codes "data:application/json;base64," ++ encode noun_metadata)
    else none

abbrev services : Services
services = record {
  Store = Text → Option Text;
  get = λ key s. s key;
  set = λ key value s other. if text_eq key other then some value else s other;
  get_set = λ key value other s. refl;
  stringify = encode;
  stringify_cons = λ m. (length m.name, m.name ++ put m.description m.image, refl);
  parse = decode;
  parse_stringify = decode-encode;
  is_int = λ low high t. leb (length t) 4;
  from_base64 = λ t. t;
  data_uri = uri_of;
  png = λ t. some t;
  store_blob = λ t. some (codes "cid");
}

abbrev empty : Services.Store services
empty key = none

abbrev requested : List Text
requested = codes "7" ∷ codes "12345" ∷ codes "8" ∷ codes "7" ∷ []

serve_all-answers_example :
    ((serve_all services requested empty).0 ≡ map (answer_of services) requested)
    × IsCache services (serve_all services requested empty).1
serve_all-answers_example = serve_all-answers services requested empty (λ token_id. inl refl)

served :
    (serve_all services requested empty).0
    ≡ sent (record noun_metadata { image = codes "ipfs://cid" })
      ∷ bad_request
      ∷ failed
      ∷ sent (record noun_metadata { image = codes "ipfs://cid" })
      ∷ []
unfolding text_eq built_metadata
served = (serve_all-answers services requested empty (λ token_id. inl refl)).0
