-- ===== src/Api/Cached.antt =====
-- What the cache of packages/nouns-api/src/utils.ts does to the answers of the route.
use sznouns.Prelude.{
  ◌≡◌, refl, sym, subst, ap, ap₂, ◌∙◌, ◌⊎◌, inl, inr, true, false, Option, none, some, List, [],
  ◌∷◌, map, Text, text_eq, text_eq_iff, Bool-cases, Option-cases,
}
use sznouns.Api.{
  TokenMetadata, Services, metadata, Response, bad_request, failed, sent, unanswered,
  get_metadata_key, built_metadata, parsed, fetch_metadata, cached_or_fetched, get_token_metadata,
  serve_metadata, serve_all,
}

get_metadata_key-injective : (t u : Text) → get_metadata_key t ≡ get_metadata_key u → t ≡ u
unfolding get_metadata_key
get_metadata_key-injective t u e = cc

module _ (services : Services) where
  open services use {
    Store, get, set, get_set, stringify, stringify_cons, parse, parse_stringify, data_uri, is_int,
  }

  abbrev pub answer_for : Option TokenMetadata → Response
  answer_for none = unanswered
  answer_for (some m) = sent m

  -- The answer for a token from the services alone.
  abbrev pub answer_of : Text → Response
  answer_of token_id = elim (is_int 0 1000 token_id) [
    | false ↦ bad_request
    | true ↦ elim (data_uri token_id) [
      | none ↦ failed
      | some uri ↦ answer_for (built_metadata services uri)
    ]
  ]

  abbrev pub IsBuilt : Text → TokenMetadata → Type 0
  IsBuilt token_id m =
      (uri : Text) × (data_uri token_id ≡ some uri) × (built_metadata services uri ≡ some m)

  -- Each entry of a token is the text of what the services give.
  abbrev pub IsCache : Store → Type 0
  IsCache s =
      (token_id : Text)
      → (get (get_metadata_key token_id) s ≡ none)
        ⊎ ((m : TokenMetadata) × (get (get_metadata_key token_id) s ≡ some (stringify m))
            × IsBuilt token_id m)

  get_token_metadata-cached :
      (token_id : Text) (s : Store) (m : TokenMetadata)
      → get (get_metadata_key token_id) s ≡ some (stringify m)
      → get_token_metadata services token_id s ≡ (metadata m, s)
  unfolding get_token_metadata
  get_token_metadata-cached token_id s m e =
      let (c, t, text) = stringify_cons m in
      let back : parse (c ∷ t) ≡ some m = ap parse (sym text) ∙ parse_stringify m in
      rw (e, text, cached_or_fetched, parsed, back) refl

  set-IsCache :
      (token_id : Text) (s : Store) (m : TokenMetadata)
      → IsCache s
      → IsBuilt token_id m
      → IsCache (set (get_metadata_key token_id) (stringify m) s)
  set-IsCache token_id s m cache built other =
      let key = get_metadata_key token_id in
      let after = get_set key (stringify m) (get_metadata_key other) s in
      elim (Bool-cases (text_eq key (get_metadata_key other))) [
        | inl same ↦
            let e =
              get_metadata_key-injective token_id other
                ((text_eq_iff key (get_metadata_key other)).0 same) in
            inr (m, rw (after, same) refl, subst (λ t. IsBuilt t m) e built)
        | inr differs ↦ elim (cache other) [
          | inl missing ↦ inl (rw (after, differs) missing)
          | inr (n, there, b) ↦ inr (n, rw (after, differs) there, b)
        ]
      ]

  abbrev IsAnswered : Text → Response × Store → Type 0
  IsAnswered token_id r = (r.0 ≡ answer_of token_id) × IsCache r.1

  serve_metadata-IsAnswered :
      (token_id : Text) (s : Store)
      → IsCache s
      → IsAnswered token_id (serve_metadata services token_id s)
  unfolding serve_metadata get_token_metadata
  serve_metadata-IsAnswered token_id s cache = elim (Bool-cases (is_int 0 1000 token_id)) [
    | inr bad ↦ rw (IsAnswered, serve_metadata, answer_of, bad) (refl, cache)
    | inl good ↦ elim (cache token_id) [
      | inr (m, there, (uri, found, built)) ↦
          rw
            (
              IsAnswered,
              serve_metadata,
              answer_of,
              good,
              get_token_metadata-cached token_id s m there,
              found,
              built,
            )
            (refl, cache)
      | inl missing ↦ elim (Option-cases (data_uri token_id)) [
        | inl absent ↦
            rw
              (
                IsAnswered, serve_metadata, answer_of, good, get_token_metadata, missing,
                cached_or_fetched, fetch_metadata, absent,
              )
              (refl, cache)
        | inr (uri, found) ↦ elim (Option-cases (built_metadata services uri)) [
          | inl fails ↦
              rw
                (
                  IsAnswered, serve_metadata, answer_of, good, get_token_metadata, missing,
                  cached_or_fetched, fetch_metadata, found, fails,
                )
                (refl, cache)
          | inr (m, built) ↦
              rw
                (
                  IsAnswered, serve_metadata, answer_of, good, get_token_metadata, missing,
                  cached_or_fetched, fetch_metadata, found, built,
                )
                (refl, set-IsCache token_id s m cache (uri, found, built))
        ]
      ]
    ]
  ]

  -- From a store in which each entry of a token is what the services give, any requests are answered as
  -- without a store: with the built metadata, or that the token identifier is bad, that there is no data, or
  -- not at all where building is an exception. The store stays such.
  pub serve_all-answers :
      (token_ids : List Text) (s : Store)
      → IsCache s
      → ((serve_all services token_ids s).0 ≡ map answer_of token_ids)
        × IsCache (serve_all services token_ids s).1
  unfolding serve_all
  serve_all-answers [] s cache = (refl, cache)
  serve_all-answers (token_id ∷ token_ids) s cache =
      let (answer, kept) = serve_metadata-IsAnswered token_id s cache in
      let (answers, all_kept) =
        serve_all-answers token_ids (serve_metadata services token_id s).1 kept in
      (ap₂ ◌∷◌ answer answers, all_kept)
