-- ===== src/Webapp/Logs.antt =====
-- The logs that pages listen to (packages/nouns-webapp/src/state/slices/logs.ts), under the keys of
-- filters (utils/logParsing.ts).
pub mod Results
pub mod Updater
pub mod Ranges
pub mod Keys
pub mod Listening
use sznouns.Prelude.{
  ℕ, ◌+◌, ◌≤◌, ◌≡◌, ◌≢◌, refl, sym, ap, ◌∙◌, Bool, true, false, not, ◌&&◌, Option, none, some, List,
  [], ◌∷◌, ◌++◌, map, ltb, arith, if◌then◌else◌, Text, text_eq, text_eq_iff, codes, Bool-cases,
  Option-cases, inl, inr, some_eq,
}
use sznouns.Prelude.Int.{ℤ, pos, ◌+ℤ◌, ◌-ℤ◌}

pub data Topic : Type 0 where
  any_topic : Topic
  one_topic : Text → Topic
  one_of : List Text → Topic

pub record EventFilter : Type 0 where
  pub address : Option Text
  pub topics : Option (List Topic)
  pub from_block : Option ℕ

pub record Log : Type 0 where
  pub topics : List Text
  pub transaction_hash : Text
  pub payload : Text

-- `texts.join(separator)`
unfoldable pub join : Text → List Text → Text
join separator [] = []
join separator (t ∷ []) = t
join separator (t ∷ u ∷ texts) = t ++ (separator ++ join separator (u ∷ texts))

-- An empty text is falsy, as null is.
abbrev pub topic_text : Topic → Text
topic_text any_topic = 0 ∷ []
topic_text (one_topic []) = 0 ∷ []
topic_text (one_topic (c ∷ t)) = c ∷ t
topic_text (one_of texts) = join (codes ";") texts

abbrev pub or_empty : Option Text → Text
or_empty none = []
or_empty (some t) = t

abbrev pub topics_text : Option (List Topic) → Text
topics_text none = []
topics_text (some topics) = join (codes "-") (map topic_text topics)

unfoldable pub filter_to_key : EventFilter → Text
filter_to_key filter = or_empty filter.address ++ (codes ":" ++ topics_text filter.topics)

-- The results at a block: logs, or an error.
pub record LogResults : Type 0 where
  pub block_number : ℕ
  pub logs : Option (List Log)

pub record FetchState : Type 0 where
  pub listeners : ℤ
  pub fetching_block_number : Option ℕ
  pub results : Option LogResults

abbrev pub LogsState : Type 0
LogsState = Text → Option FetchState

abbrev pub set_at : Text → FetchState → LogsState → LogsState
set_at key f state k = if text_eq key k then some f else state k

abbrev pub change_at : Text → (FetchState → FetchState) → LogsState → LogsState
change_at key f state = elim (state key) [ none ↦ state | some s ↦ set_at key (f s) state ]

unfoldable pub add_listener : EventFilter → LogsState → LogsState
add_listener filter state =
    let key = filter_to_key filter in
    elim (state key) [
      | none ↦
          set_at key (record { listeners = pos 1; fetching_block_number = none; results = none })
            state
      | some s ↦ set_at key (record s { listeners = s.listeners +ℤ pos 1 }) state
    ]

unfoldable pub fetching_logs : List EventFilter → ℕ → LogsState → LogsState
fetching_logs [] block_number state = state
fetching_logs (filter ∷ filters) block_number state = fetching_logs filters block_number (
    change_at (filter_to_key filter) (λ s. record s { fetching_block_number = some block_number })
      state)

abbrev pub is_newer : Option LogResults → ℕ → Bool
is_newer none block_number = false
is_newer (some r) block_number = ltb block_number r.block_number

-- `fetchedLogs`, and `fetchedLogsError` with no logs.
abbrev pub set_results : Text → LogResults → LogsState → LogsState
set_results key results state =
    change_at key
      (λ s.
        if is_newer s.results results.block_number then s else record s { results = some results })
      state

unfoldable pub fetched_logs : EventFilter → ℕ → List Log → LogsState → LogsState
fetched_logs filter block_number logs state =
    set_results (filter_to_key filter) (record { block_number = block_number; logs = some logs })
      state

unfoldable pub fetched_logs_error : EventFilter → ℕ → LogsState → LogsState
fetched_logs_error filter block_number state =
    set_results (filter_to_key filter) (record { block_number = block_number; logs = none }) state

unfoldable pub remove_listener : EventFilter → LogsState → LogsState
remove_listener filter state =
    change_at (filter_to_key filter) (λ s. record s { listeners = s.listeners -ℤ pos 1 }) state

pub data Action : Type 0 where
  listener_added : EventFilter → Action
  fetching : List EventFilter → ℕ → Action
  fetched : EventFilter → ℕ → List Log → Action
  failed : EventFilter → ℕ → Action
  listener_removed : EventFilter → Action

unfoldable pub reducer : Action → LogsState → LogsState
reducer (listener_added filter) = add_listener filter
reducer (fetching filters n) = fetching_logs filters n
reducer (fetched filter n logs) = fetched_logs filter n logs
reducer (failed filter n) = fetched_logs_error filter n
reducer (listener_removed filter) = remove_listener filter

unfoldable pub run : List Action → LogsState → LogsState
run [] state = state
run (a ∷ actions) state = run actions (reducer a state)
