-- ===== src/Webapp/Tests/Fetching.antt =====
-- A run of the hook on logs, its updater and its slice (packages/nouns-webapp/src/hooks/useLogs.ts).
use sznouns.Prelude.{ℕ, ◌≡◌, refl, some, none, Option, List, [], ◌∷◌, arith, text_eq_iff, codes}
use sznouns.Prelude.Int.{pos}
use sznouns.Webapp.Logs.{
  any_topic, one_topic, one_of, EventFilter, Log, FetchState, LogsState, Action, join,
  filter_to_key, reducer, set_at,
}
use sznouns.Webapp.Logs.Updater.{key_to_filter, Range, fetch_filter}
use sznouns.Webapp.Logs.Ranges.{times_fetched, expected_times}
use sznouns.Webapp.Logs.Listening.{use_logs, IsTold, fetch_filter-use_logs}
use sznouns.Webapp.Tests.Pages.{transfers}

abbrev listened : FetchState
listened = record { listeners = pos 1; fetching_block_number = none; results = none }

abbrev listened_state : LogsState
listened_state = set_at (filter_to_key transfers) listened (λ k. none)

-- A provider that knows one log in each range.
abbrev provided : EventFilter → Range → Option (List Log)
provided filter range = some (
    record { topics = codes "0xdd" ∷ []; transaction_hash = codes "0x7"; payload = codes "0x" }
    ∷ [])

fetch_filter-use_logs_example :
    (g : EventFilter) × (rs : List Range) × (a : Action) × (key_to_filter (filter_to_key transfers)
      ≡ some g)
    × ((b : ℕ) → times_fetched b rs ≡ expected_times 0 1500000 b)
    × (fetch_filter provided 1500000 g ≡ some a)
    × IsTold (provided g) rs (use_logs (some transfers) (some 1500000) (reducer a listened_state))
unfolding join
fetch_filter-use_logs_example =
    fetch_filter-use_logs provided transfers (one_topic (codes "0xdd"))
      (one_of (codes "0x01" ∷ codes "0x02" ∷ []) ∷ any_topic ∷ []) listened_state listened 1499999
      refl (ground arith) (ground arith)
      (rw ((text_eq_iff (filter_to_key transfers) (filter_to_key transfers)).1 refl) refl) refl
