-- ===== src/Webapp/Logs/Keys.antt =====
-- Filters through their keys and back (packages/nouns-webapp/src/utils/logParsing.ts).
use sznouns.Prelude.{
  ℕ, ◌≡◌, append_assoc, refl, sym, ap, ap₂, ◌∙◌, true, false, none, some, List, [], ◌∷◌, ◌++◌, map,
  arith, All, All-append, ◌==◌, Bool-cases, inl, inr, Text, codes,
}
use sznouns.Webapp.Logs.{
  Topic, one_topic, EventFilter, join, topic_text, topics_text, or_empty, filter_to_key,
}
use sznouns.Webapp.Logs.Updater.{split, push, topic_of, non_empty, filter_of, key_to_filter}

-- A text without a separator.
abbrev pub IsFree : ℕ → Text → Type 0
IsFree separator t = All (λ c. c == separator ≡ false) t

split_free : (separator : ℕ) (t : Text) → IsFree separator t → split separator t ≡ t ∷ []
unfolding split
split_free separator [] h = refl
split_free separator (c ∷ t) (e, h) = rw (e, split_free separator t h) refl

split-append :
    (separator : ℕ) (t rest : Text)
    → IsFree separator t
    → split separator (t ++ separator ∷ rest) ≡ t ∷ split separator rest
unfolding split
split-append separator [] rest h = let e : separator == separator ≡ true = ground arith in rw e refl
split-append separator (c ∷ t) rest (e, h) = rw (e, split-append separator t rest h) refl

split-join :
    (separator : ℕ) (t : Text) (texts : List Text)
    → All (IsFree separator) (t ∷ texts)
    → split separator (join (separator ∷ []) (t ∷ texts)) ≡ t ∷ texts
unfolding join
split-join separator t [] (h, _) = split_free separator t h
split-join separator t (u ∷ texts) (h, hs) =
    split-append separator t (join (separator ∷ []) (u ∷ texts)) h
    ∙ ap (◌∷◌ t) (split-join separator u texts hs)

join-push :
    (separator c : ℕ) (parts : List Text)
    → join (separator ∷ []) (push c parts) ≡ c ∷ join (separator ∷ []) parts
unfolding join
join-push separator c [] = refl
join-push separator c (p ∷ []) = refl
join-push separator c (p ∷ q ∷ parts) = refl

split_cons :
    (separator : ℕ) (t : Text) → (p : Text) × (ps : List Text) × (split separator t ≡ p ∷ ps)
unfolding split
split_cons separator [] = ([], [], refl)
split_cons separator (c ∷ t) =
    let (p, ps, e) = split_cons separator t in
    elim (Bool-cases (c == separator)) [
      | inl s ↦ ([], p ∷ ps, rw (s, e) refl)
      | inr s ↦ (c ∷ p, ps, rw (s, e) refl)
    ]

join-split : (separator : ℕ) (t : Text) → join (separator ∷ []) (split separator t) ≡ t
unfolding split join
join-split separator [] = refl
join-split separator (c ∷ t) =
    let (p, ps, e) = split_cons separator t in
    let back : join (separator ∷ []) (p ∷ ps) ≡ t =
      ap (join (separator ∷ [])) (sym e) ∙ join-split separator t in
    elim (Bool-cases (c == separator)) [
      | inl s ↦
          let same : c ≡ separator = ground arith in rw (s, e) (ap₂ (λ d u. d ∷ u) (sym same) back)
      | inr s ↦
          rw s (join-push separator c (split separator t) ∙ ap (◌∷◌ c) (join-split separator t))
    ]

abbrev pub IsNonEmpty : Text → Type 0
IsNonEmpty [] = ⊥
IsNonEmpty (c ∷ t) = Unit

topic_text-topic_of :
    (parts : List Text) (c : ℕ) (t : Text)
    → join (codes ";") parts ≡ c ∷ t
    → topic_text (topic_of parts) ≡ join (codes ";") parts
unfolding join
topic_text-topic_of [] c t e = refl
topic_text-topic_of ([] ∷ []) c t e = cc
topic_text-topic_of ((d ∷ p) ∷ []) c t e = refl
topic_text-topic_of (p ∷ q ∷ parts) c t e = refl

-- A topic that is read from a text stands for that text.
topic_text_back : (t : Text) → IsNonEmpty t → topic_text (topic_of (split 59 t)) ≡ t
topic_text_back [] h = absurd h
topic_text_back (c ∷ t) h =
    topic_text-topic_of (split 59 (c ∷ t)) c t (join-split 59 (c ∷ t)) ∙ join-split 59 (c ∷ t)

map-topic_text_back :
    (texts : List Text)
    → All IsNonEmpty texts
    → map topic_text (map (λ topic. topic_of (split 59 topic)) texts) ≡ texts
map-topic_text_back [] h = refl
map-topic_text_back (t ∷ texts) (e, h) =
    ap₂ (◌∷◌) (topic_text_back t e) (map-topic_text_back texts h)

join-IsFree :
    (separator : ℕ) (sep : Text) (texts : List Text)
    → IsFree separator sep
    → All (IsFree separator) texts
    → IsFree separator (join sep texts)
unfolding join
join-IsFree separator sep [] h hs = tt
join-IsFree separator sep (t ∷ []) h (e, hs) = e
join-IsFree separator sep (t ∷ u ∷ texts) h (e, hs) =
    All-append (λ c. c == separator ≡ false) t (sep ++ join sep (u ∷ texts)) e
      (All-append (λ c. c == separator ≡ false) sep (join sep (u ∷ texts)) h
        (join-IsFree separator sep (u ∷ texts) h hs))

-- A topic's text is not empty, and has no colon and no dash.
abbrev pub IsPlainTopic : Text → Type 0
IsPlainTopic t = IsNonEmpty t × IsFree 58 t × IsFree 45 t

plain_topics :
    (texts : List Text)
    → All IsPlainTopic texts
    → All IsNonEmpty texts × All (IsFree 58) texts × All (IsFree 45) texts
plain_topics [] h = (tt, tt, tt)
plain_topics (t ∷ texts) ((a, b, c), h) =
    let (full, colons, dashes) = plain_topics texts h in ((a, full), (b, colons), (c, dashes))

or_empty-non_empty : (t : Text) → or_empty (non_empty t) ≡ t
or_empty-non_empty [] = refl
or_empty-non_empty (c ∷ t) = refl

-- A key is read as a filter with the same key, so that what is dispatched for the filter reaches the
-- entry of the key: for a filter with topics, whose address has no colon, and whose topics have texts
-- that are not empty and have no colon and no dash.
pub filter_to_key-key_to_filter :
    (filter : EventFilter) (topic : Topic) (topics : List Topic)
    → filter.topics ≡ some (topic ∷ topics)
    → IsFree 58 (or_empty filter.address)
    → All IsPlainTopic (map topic_text (topic ∷ topics))
    → (g : EventFilter) × (key_to_filter (filter_to_key filter) ≡ some g)
      × (filter_to_key g ≡ filter_to_key filter)
unfolding key_to_filter filter_to_key
filter_to_key-key_to_filter filter topic topics e free plain =
    let texts = map topic_text (topic ∷ topics) in
    let (full, colons, dashes) = plain_topics texts plain in
    let text = join (codes "-") texts in
    let address = or_empty filter.address in
    let text_free : IsFree 58 text = join-IsFree 58 (codes "-") texts (refl, tt) colons in
    let key : filter_to_key filter ≡ address ++ 58 ∷ text =
      ap (λ ts. address ++ 58 ∷ topics_text ts) e in
    let parts : split 58 (address ++ 58 ∷ text) ≡ address ∷ text ∷ [] =
      split-append 58 address text free ∙ ap (◌∷◌ address) (split_free 58 text text_free) in
    let back = map-topic_text_back texts full in
    let cut : split 45 text ≡ texts =
      split-join 45 (topic_text topic) (map topic_text topics) dashes in
    let g : EventFilter = record {
      address = non_empty address;
      topics = some (map (λ t. topic_of (split 59 t)) (split 45 text));
      from_block = none;
    } in
    (
      g,
      ap (λ k. filter_of (split 58 k)) key ∙ ap filter_of parts,
      ap₂ (λ a ts. a ++ 58 ∷ join (codes "-") ts) (or_empty-non_empty address)
            (ap (λ ts. map topic_text (map (λ t. topic_of (split 59 t)) ts)) cut ∙ back)
          ∙ sym key,
    )

-- The key of a filter without topics is read as a filter with another key, so that the entry of the
-- first key never gets results.
pub filter_to_key-no_topics :
    (filter : EventFilter)
    → filter.topics ≡ none
    → IsFree 58 (or_empty filter.address)
    → (g : EventFilter) × (key_to_filter (filter_to_key filter) ≡ some g)
      × (filter_to_key g ≡ filter_to_key filter ++ 0 ∷ [])
unfolding key_to_filter filter_to_key split join
filter_to_key-no_topics filter e free =
    let address = or_empty filter.address in
    let key : filter_to_key filter ≡ address ++ 58 ∷ [] =
      ap (λ ts. address ++ 58 ∷ topics_text ts) e in
    let parts : split 58 (address ++ 58 ∷ []) ≡ address ∷ [] ∷ [] =
      split-append 58 address [] free in
    let g : EventFilter = record {
      address = non_empty address;
      topics = some (one_topic [] ∷ []);
      from_block = none;
    } in
    (
      g,
      ap (λ k. filter_of (split 58 k)) key ∙ ap filter_of parts,
      ap (λ a. a ++ 58 ∷ 0 ∷ []) (or_empty-non_empty address)
          ∙ (sym (append_assoc address (58 ∷ []) (0 ∷ [])) ∙ ap (λ k. k ++ 0 ∷ []) (sym key)),
    )
