-- ===== src/Webapp/Logs/Updater.antt =====
-- The fetching of logs (packages/nouns-webapp/src/state/updaters/logs.ts), for the filters that keys stand
-- for (packages/nouns-webapp/src/utils/logParsing.ts, `keyToFilter`).
use sznouns.Prelude.{
  ℕ, zero, suc, ◌+◌, Bool, true, false, not, Option, none, some, List, [], ◌∷◌, ◌++◌, map, leb,
  ◌==◌, if◌then◌else◌, min, Text,
}
use sznouns.Prelude.Int.{pos, eqb_ℤ}
use sznouns.Webapp.Logs.{
  Topic, one_topic, one_of, EventFilter, Log, LogsState, FetchState, LogResults, Action, fetched,
  failed,
}

abbrev pub push : ℕ → List Text → List Text
push c [] = (c ∷ []) ∷ []
push c (part ∷ parts) = (c ∷ part) ∷ parts

-- `text.split(separator)` for a separator of one character.
unfoldable pub split : ℕ → Text → List Text
split separator [] = [] ∷ []
split separator (c ∷ t) =
    let rest = split separator t in if c == separator then [] ∷ rest else push c rest

abbrev pub topic_of : List Text → Topic
topic_of (part ∷ []) = one_topic part
topic_of parts = one_of parts

abbrev pub non_empty : Text → Option Text
non_empty [] = none
non_empty (c ∷ t) = some (c ∷ t)

abbrev pub filter_of : List Text → Option EventFilter
filter_of (address ∷ topics ∷ pcs) = some (record {
  address = non_empty address;
  topics = some (map (λ topic. topic_of (split 59 topic)) (split 45 topics));
  from_block = none;
})
filter_of _ = none

-- `none` is the exception where a key has no colon.
unfoldable pub key_to_filter : Text → Option EventFilter
key_to_filter key = filter_of (split 58 key)

abbrev pub at_least : Option ℕ → ℕ → Bool
at_least none n = false
at_least (some m) n = leb n m

abbrev pub result_block : Option LogResults → Option ℕ
result_block none = none
result_block (some r) = some r.block_number

unfoldable pub needs_fetch : ℕ → FetchState → Bool
needs_fetch block_number s =
    if eqb_ℤ s.listeners (pos 0)
    then false
    else if at_least s.fetching_block_number block_number
    then false
    else not (at_least (result_block s.results) block_number)

abbrev pub needs_some : ℕ → Option FetchState → Bool
needs_some block_number none = false
needs_some block_number (some s) = needs_fetch block_number s

-- The keys of the state, in their order, whose logs are to be fetched.
unfoldable pub keys_need_fetch : ℕ → LogsState → List Text → List Text
keys_need_fetch block_number state [] = []
keys_need_fetch block_number state (key ∷ keys) =
    let rest = keys_need_fetch block_number state keys in
    if needs_some block_number (state key) then key ∷ rest else rest

abbrev pub max_blocks_per_call : ℕ
max_blocks_per_call = 1000000

pub record Range : Type 0 where
  pub from_block : ℕ
  pub to_block : ℕ

-- The loop over the blocks; `none` if the fuel runs out.
unfoldable pub ranges_from : ℕ → ℕ → ℕ → Option (List Range)
ranges_from zero from_block block_number = none
ranges_from (suc fuel) from_block block_number = elim (leb from_block block_number) [
  | false ↦ some []
  | true ↦ elim (ranges_from fuel (from_block + max_blocks_per_call) block_number) [
    | none ↦ none
    | some ranges ↦ some (
        record {
          from_block = from_block;
          to_block = min (from_block + max_blocks_per_call) block_number;
        }
        ∷ ranges)
  ]
]

unfoldable pub ranges : ℕ → ℕ → Option (List Range)
ranges from_block block_number = ranges_from (block_number + 2) from_block block_number

-- `Promise.all` of the calls of `getLogs`, flat: `none` if one rejects.
unfoldable pub get_all : (Range → Option (List Log)) → List Range → Option (List Log)
get_all get_logs [] = some []
get_all get_logs (range ∷ rs) = elim (get_logs range) [
  | none ↦ none
  | some logs ↦ elim (get_all get_logs rs) [ none ↦ none | some more ↦ some (logs ++ more) ]
]

abbrev pub dispatched : EventFilter → ℕ → Option (List Log) → Action
dispatched filter block_number none = failed filter block_number
dispatched filter block_number (some logs) = fetched filter block_number logs

abbrev pub first_block : Option ℕ → ℕ
first_block none = 0
first_block (some n) = n

-- What is dispatched in the end for a filter.
unfoldable pub fetch_filter :
    (EventFilter → Range → Option (List Log)) → ℕ → EventFilter → Option Action
fetch_filter get_logs block_number filter =
    elim (ranges (first_block filter.from_block) block_number) [
      | none ↦ none
      | some rs ↦ some (dispatched filter block_number (get_all (get_logs filter) rs))
    ]
