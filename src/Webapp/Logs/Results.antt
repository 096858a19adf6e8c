-- ===== src/Webapp/Logs/Results.antt =====
-- The results of logs never go back to an earlier block (packages/nouns-webapp/src/state/slices/logs.ts).
use sznouns.Prelude.{
  ℕ, ◌≤◌, ◌≡◌, refl, sym, ap, ◌∙◌, Option, none, some, List, [], ◌∷◌, ltb, arith, if◌then◌else◌,
  Text, text_eq, text_eq_iff, Bool-cases, Option-cases, inl, inr, some_eq,
}
use sznouns.Prelude.Int.{pos, ◌+ℤ◌, ◌-ℤ◌}
use sznouns.Webapp.Logs.{
  EventFilter, filter_to_key, LogResults, FetchState, LogsState, set_at, change_at, add_listener,
  fetching_logs, is_newer, set_results, fetched_logs, fetched_logs_error, remove_listener, Action,
  listener_added, fetching, fetched, failed, listener_removed, reducer, run,
}

-- The state of a key has results at a block not before this one.
abbrev pub HasSince : ℕ → Option FetchState → Type 0
HasSince n state =
    (s : FetchState) × (r : LogResults) × (state ≡ some s)
    × (s.results ≡ some r)
    × (n ≤ r.block_number)

abbrev ResultsSince : ℕ → FetchState → Type 0
ResultsSince n s = (r : LogResults) × (s.results ≡ some r) × (n ≤ r.block_number)

set_at-HasSince :
    (key : Text) (f : FetchState → FetchState) (s : FetchState) (state : LogsState) (k : Text)
    (n : ℕ)
    → state key ≡ some s
    → ((t : FetchState) → ResultsSince n t → ResultsSince n (f t))
    → HasSince n (state k)
    → HasSince n (set_at key (f s) state k)
set_at-HasSince key f s state k n there keeps (t, r, e, e', le) =
    elim (Bool-cases (text_eq key k)) [
      | inl at ↦
          let same_key : key ≡ k = (text_eq_iff key k).0 at in
          let same : t ≡ s = some_eq (sym e ∙ (ap state (sym same_key) ∙ there)) in
          let (r', kept, le') = keeps t (r, e', le) in
          (f s, r', ground (arith, at), ap (λ u. (f u).results) (sym same) ∙ kept, le')
      | inr other ↦ (t, r, ground (arith, other, e), e', le)
    ]

set_new-HasSince :
    (key : Text) (new : FetchState) (state : LogsState) (k : Text) (n : ℕ)
    → state key ≡ none
    → HasSince n (state k)
    → HasSince n (set_at key new state k)
set_new-HasSince key new state k n missing (t, r, e, e', le) = elim (Bool-cases (text_eq key k)) [
  | inl at ↦
      let same_key : key ≡ k = (text_eq_iff key k).0 at in
      let clash : none ≡ some t = sym missing ∙ (ap state same_key ∙ e) in absurd cc
  | inr other ↦ (t, r, ground (arith, other, e), e', le)
]

change_at-HasSince :
    (key : Text) (f : FetchState → FetchState) (state : LogsState) (k : Text) (n : ℕ)
    → ((t : FetchState) → ResultsSince n t → ResultsSince n (f t))
    → HasSince n (state k)
    → HasSince n (change_at key f state k)
change_at-HasSince key f state k n keeps h = elim (Option-cases (state key)) [
  | inl missing ↦ rw (missing, change_at) h
  | inr (s, there) ↦ rw (there, change_at) (set_at-HasSince key f s state k n there keeps h)
]

set_results-HasSince :
    (key : Text) (results : LogResults) (state : LogsState) (k : Text) (n : ℕ)
    → HasSince n (state k)
    → HasSince n (set_results key results state k)
set_results-HasSince key results state k n =
    change_at-HasSince key
      (λ s.
        if is_newer s.results results.block_number then s else record s { results = some results })
      state k n keeps
  where
    keeps :
        (t : FetchState)
        → ResultsSince n t
        → ResultsSince n (
            if is_newer t.results results.block_number
            then t
            else record t { results = some results })
    keeps t (r, e, le) = elim (Bool-cases (ltb results.block_number r.block_number)) [
      | inl newer ↦ rw (e, newer) ((r, refl, le))
      | inr older ↦ rw (e, older) ((results, refl, ground arith))
    ]

fetching_logs-HasSince :
    (filters : List EventFilter) (b : ℕ) (state : LogsState) (k : Text) (n : ℕ)
    → HasSince n (state k)
    → HasSince n (fetching_logs filters b state k)
unfolding fetching_logs
fetching_logs-HasSince [] b state k n h = h
fetching_logs-HasSince (filter ∷ filters) b state k n h = fetching_logs-HasSince filters b _ k n (
    change_at-HasSince (filter_to_key filter) (λ s. record s { fetching_block_number = some b })
      state k n (λ t keep. keep) h)

add_listener-HasSince :
    (filter : EventFilter) (state : LogsState) (k : Text) (n : ℕ)
    → HasSince n (state k)
    → HasSince n (add_listener filter state k)
unfolding add_listener
add_listener-HasSince filter state k n h = elim (Option-cases (state (filter_to_key filter))) [
  | inl missing ↦
      rw (missing, add_listener) (set_new-HasSince (filter_to_key filter) _ state k n missing h)
  | inr (s, there) ↦
      rw (there, add_listener)
        (set_at-HasSince (filter_to_key filter) (λ t. record t { listeners = t.listeners +ℤ pos 1 })
          s state k n there (λ t keep. keep) h)
]

reducer-HasSince :
    (a : Action) (state : LogsState) (key : Text) (n : ℕ)
    → HasSince n (state key)
    → HasSince n (reducer a state key)
unfolding reducer fetched_logs fetched_logs_error remove_listener
reducer-HasSince (listener_added filter) state key n h = add_listener-HasSince filter state key n h
reducer-HasSince (fetching filters b) state key n h = fetching_logs-HasSince filters b state key n h
reducer-HasSince (fetched filter b logs) state key n h = set_results-HasSince _ _ state key n h
reducer-HasSince (failed filter b) state key n h = set_results-HasSince _ _ state key n h
reducer-HasSince (listener_removed filter) state key n h =
    change_at-HasSince (filter_to_key filter) (λ s. record s { listeners = s.listeners -ℤ pos 1 })
      state key n (λ t keep. keep) h

-- If the state has results of a block for a key, then after any actions it has results for that key, of
-- that block or a later one.
pub run-HasSince :
    (actions : List Action) (state : LogsState) (key : Text) (n : ℕ)
    → HasSince n (state key)
    → HasSince n (run actions state key)
unfolding run
run-HasSince [] state key n h = h
run-HasSince (a ∷ actions) state key n h =
    run-HasSince actions (reducer a state) key n (reducer-HasSince a state key n h)
