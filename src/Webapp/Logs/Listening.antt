-- ===== src/Webapp/Logs/Listening.antt =====
-- What a page that listens to logs gets (packages/nouns-webapp/src/hooks/useLogs.ts), from the slice and its
-- updater.
use sznouns.Prelude.{
  flat, ℕ, zero, suc, ◌≡◌, refl, sym, ap, ◌∙◌, ◌⊎◌, inl, inr, true, false, Option, none, some,
  some_eq, Option-cases, List, [], ◌∷◌, map, arith, All, leb, if◌then◌else◌, Text, text_eq,
  text_eq_iff,
}
use sznouns.Webapp.Logs.{
  Topic, EventFilter, Log, LogResults, FetchState, LogsState, topic_text, or_empty, filter_to_key,
  is_newer, set_at, change_at, set_results, fetched_logs, fetched_logs_error, reducer, Action,
}
use sznouns.Webapp.Logs.Updater.{
  split, filter_of, key_to_filter, Range, get_all, dispatched, fetch_filter,
}
use sznouns.Webapp.Logs.Ranges.{times_fetched, expected_times, ranges-times}
use sznouns.Webapp.Logs.Keys.{IsFree, IsPlainTopic, filter_to_key-key_to_filter}

-- The enumeration `LogsState` of the hook.
pub data Progress : Type 0 where
  invalid : Progress
  loading : Progress
  syncing : Progress
  error : Progress
  synced : Progress

pub record UseLogsResult : Type 0 where
  pub logs : Option (List Log)
  pub state : Progress

abbrev pub without_logs : Progress → UseLogsResult
without_logs state = record { logs = none; state = state }

abbrev pub result_at : ℕ → LogResults → UseLogsResult
result_at block_number result = elim result.logs [
  | none ↦ without_logs error
  | some logs ↦ record {
    logs = some logs;
    state = if leb block_number result.block_number then synced else syncing;
  }
]

abbrev pub stored_result : ℕ → Option FetchState → UseLogsResult
stored_result block_number none = without_logs loading
stored_result block_number (some s) = elim s.results [
  | none ↦ without_logs loading
  | some result ↦ result_at block_number result
]

-- A block number of 0 is falsy; a key never is, as it has a colon.
unfoldable pub use_logs : Option EventFilter → Option ℕ → LogsState → UseLogsResult
use_logs none block_number state = without_logs invalid
use_logs (some filter) none state = without_logs invalid
use_logs (some filter) (some zero) state = without_logs invalid
use_logs (some filter) (some (suc n)) state = stored_result (suc n) (state (filter_to_key filter))

-- What is to be shown for the answer of the provider.
abbrev pub answered : Option (List Log) → UseLogsResult
answered none = without_logs error
answered (some logs) = record { logs = some logs; state = synced }

set_results-at :
    (k : Text) (r : LogResults) (state : LogsState) (s : FetchState)
    → state k ≡ some s
    → is_newer s.results r.block_number ≡ false
    → set_results k r state k ≡ some (record s { results = some r })
set_results-at k r state s there old =
    let same : text_eq k k ≡ true = (text_eq_iff k k).1 refl in
    rw (set_results, change_at, there, set_at, same, old) refl

leb_self : (n : ℕ) → leb n n ≡ true
leb_self n = ground arith

module _ (filter g : EventFilter) (state : LogsState) (s : FetchState) (n : ℕ) where
  use_logs-dispatched :
      (answer : Option (List Log))
      → filter_to_key g ≡ filter_to_key filter
      → state (filter_to_key filter) ≡ some s
      → is_newer s.results (suc n) ≡ false
      → use_logs (some filter) (some (suc n)) (reducer (dispatched g (suc n) answer) state)
        ≡ answered answer
  unfolding use_logs reducer fetched_logs fetched_logs_error
  use_logs-dispatched none key there old =
      rw
        (
          key,
          set_results-at (filter_to_key filter) (record { block_number = suc n; logs = none }) state
              s there old,
        )
        refl
  use_logs-dispatched (some logs) key there old =
      rw
        (
          key,
          set_results-at (filter_to_key filter) (record { block_number = suc n; logs = some logs })
              state s there old,
          leb_self (suc n),
        )
        refl

-- The provider answers each range with one of these lists of logs.
abbrev pub Answers : (Range → Option (List Log)) → List Range → List (List Log) → Type 0
Answers get_logs [] [] = Unit
Answers get_logs [] (logs ∷ parts) = ⊥
Answers get_logs (range ∷ rs) [] = ⊥
Answers get_logs (range ∷ rs) (logs ∷ parts) =
    (get_logs range ≡ some logs) × Answers get_logs rs parts

-- The provider rejects one of the ranges.
abbrev pub Rejects : (Range → Option (List Log)) → List Range → Type 0
Rejects get_logs [] = ⊥
Rejects get_logs (range ∷ rs) = (get_logs range ≡ none) ⊎ Rejects get_logs rs

-- The logs of all ranges are shown as synced, or an error where the provider rejects one.
abbrev pub IsTold : (Range → Option (List Log)) → List Range → UseLogsResult → Type 0
IsTold get_logs rs result =
    ((parts : List (List Log)) × Answers get_logs rs parts
      × (result ≡ record { logs = some (flat parts); state = synced }))
    ⊎ (Rejects get_logs rs × (result ≡ record { logs = none; state = error }))

answered-IsTold :
    (get_logs : Range → Option (List Log)) (rs : List Range)
    → ((parts : List (List Log)) × Answers get_logs rs parts
        × (get_all get_logs rs ≡ some (flat parts)))
      ⊎ (Rejects get_logs rs × (get_all get_logs rs ≡ none))
unfolding get_all
answered-IsTold get_logs [] = inl ([], tt, refl)
answered-IsTold get_logs (range ∷ rs) = elim (Option-cases (get_logs range)) [
  | inl rejected ↦ inr (inl rejected, rw (get_all, rejected) refl)
  | inr (logs, given) ↦ elim (answered-IsTold get_logs rs) [
    | inl (parts, answers, all) ↦
        inl (logs ∷ parts, (given, answers), rw (get_all, given, all) refl)
    | inr (rejects, fails) ↦ inr (inr rejects, rw (get_all, given, fails) refl)
  ]
]

key_to_filter-first :
    (key : Text) (g : EventFilter) → key_to_filter key ≡ some g → g.from_block ≡ none
unfolding key_to_filter
key_to_filter-first key g e = go (split 58 key) e
  where
    go : (parts : List Text) → filter_of parts ≡ some g → g.from_block ≡ none
    go [] e = absurd cc
    go (a ∷ []) e = absurd cc
    go (a ∷ t ∷ parts) e = ap (λ (f : EventFilter). f.from_block) (sym (some_eq e))

-- A page that listens to a filter with topics that are plain texts, with no result newer than the block,
-- gets what the updater dispatches for the key of the filter at that block: the updater reads a filter
-- back from the key; its loop over the blocks ends, with every block up to this one in a range; and the
-- hook then shows the logs that the provider gives for these ranges, in their order, as synced, or an
-- error where the provider rejects one.
pub fetch_filter-use_logs :
    (get_logs : EventFilter → Range → Option (List Log)) (filter : EventFilter) (topic : Topic)
    (topics : List Topic) (state : LogsState) (s : FetchState) (n : ℕ)
    → filter.topics ≡ some (topic ∷ topics)
    → IsFree 58 (or_empty filter.address)
    → All IsPlainTopic (map topic_text (topic ∷ topics))
    → state (filter_to_key filter) ≡ some s
    → is_newer s.results (suc n) ≡ false
    → (g : EventFilter) × (rs : List Range) × (a : Action) × (key_to_filter (filter_to_key filter)
        ≡ some g)
      × ((b : ℕ) → times_fetched b rs ≡ expected_times 0 (suc n) b)
      × (fetch_filter get_logs (suc n) g ≡ some a)
      × IsTold (get_logs g) rs (use_logs (some filter) (some (suc n)) (reducer a state))
unfolding fetch_filter
fetch_filter-use_logs get_logs filter topic topics state s n e free plain there old =
    let (g, read, key) = filter_to_key-key_to_filter filter topic topics e free plain in
    let (rs, ends, times) = ranges-times 0 (suc n) in
    let first = key_to_filter-first (filter_to_key filter) g read in
    let answer = get_all (get_logs g) rs in
    let shown = use_logs-dispatched filter g state s n answer key there old in
    (
      g,
      rs,
      dispatched g (suc n) answer,
      read,
      times,
      rw (fetch_filter, first, ends) refl,
      elim (answered-IsTold (get_logs g) rs) [
        | inl (parts, answers, all) ↦ inl (parts, answers, shown ∙ ap answered all)
        | inr (rejects, fails) ↦ inr (rejects, shown ∙ ap answered fails)
      ],
    )
