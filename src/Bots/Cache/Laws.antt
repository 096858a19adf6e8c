-- ===== src/Bots/Cache/Laws.antt =====
-- What the readers of packages/nouns-bots/src/cache.ts find after its writers.
use sznouns.Prelude.{
  ℕ, ◌≡◌, refl, sym, ap, ◌∙◌, true, false, none, some, [], ◌∷◌, ◌++◌, arith, ◌==◌, ==_iff,
  if◌then◌else◌, inl, inr, Bool-cases, Text, text_eq, text_eq_iff, codes,
}
use sznouns.Bots.{Redis, Proposal, is_some}
use sznouns.Prelude.Decimal.{
  to_decimal, number, number-to_decimal, to_decimal-injective, to_decimal_cons,
}
use sznouns.Bots.Cache.{
  auction_cache_key, bid_cache_key, reply_tweet_id_key, auction_ending_soon_cache_key,
  proposal_cache_key_prefix, number_or_zero, text_or_empty, parse_or_null,
  proposal_expiry_warning_sent_cache_key_prefix, proposal_cache_key,
  proposal_expiry_warning_sent_cache_key, update_auction_cache, get_bid_cache, update_bid_cache,
  get_auction_ending_soon_cache, update_auction_ending_soon_cache, get_auction_cache,
  update_proposal_cache, get_proposal_cache, set_proposal_expiry_warning_sent, has_warned_of_expiry,
}

number_or_zero-to_decimal : (n : ℕ) → number_or_zero (some (to_decimal n)) ≡ some n
number_or_zero-to_decimal n =
    let (c, t, e) = to_decimal_cons n in
    ap (λ u. number_or_zero (some u)) e ∙ (ap number (sym e) ∙ number-to_decimal n)

text_eq-append : (p s t : Text) → text_eq (p ++ s) (p ++ t) ≡ text_eq s t
unfolding text_eq
text_eq-append [] s t = refl
text_eq-append (c ∷ p) s t = ground (arith, text_eq-append p s t)

text_eq-to_decimal : (i j : ℕ) → text_eq (to_decimal i) (to_decimal j) ≡ (i == j)
text_eq-to_decimal i j = elim (Bool-cases (i == j)) [
  | inl e ↦
      let same : i ≡ j = (==_iff i j).0 e in
      rw (e) ((text_eq_iff (to_decimal i) (to_decimal j)).1 (ap to_decimal same))
  | inr e ↦ elim (Bool-cases (text_eq (to_decimal i) (to_decimal j))) [
    | inl t ↦
        let same : i ≡ j =
          to_decimal-injective i j ((text_eq_iff (to_decimal i) (to_decimal j)).0 t) in
        absurd (ground arith)
    | inr f ↦ f ∙ sym e
  ]
]

-- No decimal goes on like the longer prefix.
text_eq-expiry :
    (i : ℕ) (t : Text) → text_eq (to_decimal i) (codes "EXPIRY_WARNING_SENT_" ++ t) ≡ false
unfolding number
text_eq-expiry i t =
    elim (Bool-cases (text_eq (to_decimal i) (codes "EXPIRY_WARNING_SENT_" ++ t))) [
      | inl e ↦
          let same = (text_eq_iff (to_decimal i) (codes "EXPIRY_WARNING_SENT_" ++ t)).0 e in
          let none_some : none ≡ some i = sym (ap number same) ∙ number-to_decimal i in cc
      | inr f ↦ f
    ]

text_eq_comm : (s t : Text) → text_eq s t ≡ text_eq t s
unfolding text_eq
text_eq_comm [] [] = refl
text_eq_comm [] (b ∷ t) = refl
text_eq_comm (a ∷ s) [] = refl
text_eq_comm (a ∷ s) (b ∷ t) = ground (arith, text_eq_comm s t)

proposal_keys : (i j : ℕ) → text_eq (proposal_cache_key i) (proposal_cache_key j) ≡ (i == j)
unfolding proposal_cache_key
proposal_keys i j =
    text_eq-append proposal_cache_key_prefix (to_decimal i) (to_decimal j) ∙ text_eq-to_decimal i j

warning_keys :
    (i j : ℕ)
    → text_eq (proposal_expiry_warning_sent_cache_key i) (proposal_expiry_warning_sent_cache_key j)
      ≡ (i == j)
unfolding proposal_expiry_warning_sent_cache_key
warning_keys i j =
    text_eq-append proposal_expiry_warning_sent_cache_key_prefix (to_decimal i) (to_decimal j)
    ∙ text_eq-to_decimal i j

proposal_warning_keys :
    (i j : ℕ) → text_eq (proposal_cache_key i) (proposal_expiry_warning_sent_cache_key j) ≡ false
unfolding proposal_cache_key proposal_expiry_warning_sent_cache_key
proposal_warning_keys i j =
    text_eq-append proposal_cache_key_prefix (to_decimal i)
      (codes "EXPIRY_WARNING_SENT_" ++ to_decimal j)
    ∙ text_eq-expiry i (to_decimal j)

module _ (r : Redis) where
  open r use {
    Store, get, set, exists, get_set, exists_get, stringify, parse, parse_stringify, stringify_cons,
  }

  pub get_auction_cache-update_auction_cache :
      (id : ℕ) (s : Store) → get_auction_cache r (update_auction_cache r id s) ≡ some id
  unfolding get_auction_cache update_auction_cache text_eq
  get_auction_cache-update_auction_cache id s =
      rw (get_set auction_cache_key (to_decimal id) auction_cache_key s)
        (number_or_zero-to_decimal id)

  pub get_auction_cache-update_bid_cache :
      (id : Text) (s : Store)
      → get_auction_cache r (update_bid_cache r id s) ≡ get_auction_cache r s
  unfolding get_auction_cache update_bid_cache text_eq
  get_auction_cache-update_bid_cache id s =
      ap number_or_zero (get_set bid_cache_key id auction_cache_key s)

  pub get_auction_cache-update_auction_ending_soon_cache :
      (id : ℕ) (s : Store)
      → get_auction_cache r (update_auction_ending_soon_cache r id s) ≡ get_auction_cache r s
  unfolding get_auction_cache update_auction_ending_soon_cache text_eq
  get_auction_cache-update_auction_ending_soon_cache id s =
      ap number_or_zero (get_set auction_ending_soon_cache_key (to_decimal id) auction_cache_key s)

  pub get_auction_ending_soon_cache-update_auction_ending_soon_cache :
      (id : ℕ) (s : Store)
      → get_auction_ending_soon_cache r (update_auction_ending_soon_cache r id s) ≡ some id
  unfolding get_auction_ending_soon_cache update_auction_ending_soon_cache text_eq
  get_auction_ending_soon_cache-update_auction_ending_soon_cache id s =
      rw (get_set auction_ending_soon_cache_key (to_decimal id) auction_ending_soon_cache_key s)
        (number_or_zero-to_decimal id)

  pub get_auction_ending_soon_cache-update_auction_cache :
      (id : ℕ) (s : Store)
      → get_auction_ending_soon_cache r (update_auction_cache r id s)
        ≡ get_auction_ending_soon_cache r s
  unfolding get_auction_ending_soon_cache update_auction_cache text_eq
  get_auction_ending_soon_cache-update_auction_cache id s =
      ap number_or_zero (get_set auction_cache_key (to_decimal id) auction_ending_soon_cache_key s)

  pub get_auction_ending_soon_cache-update_bid_cache :
      (id : Text) (s : Store)
      → get_auction_ending_soon_cache r (update_bid_cache r id s)
        ≡ get_auction_ending_soon_cache r s
  unfolding get_auction_ending_soon_cache update_bid_cache text_eq
  get_auction_ending_soon_cache-update_bid_cache id s =
      ap number_or_zero (get_set bid_cache_key id auction_ending_soon_cache_key s)

  pub get_bid_cache-update_bid_cache :
      (id : Text) (s : Store) → get_bid_cache r (update_bid_cache r id s) ≡ id
  unfolding get_bid_cache update_bid_cache text_eq
  get_bid_cache-update_bid_cache id s = ap text_or_empty (get_set bid_cache_key id bid_cache_key s)

  pub get_bid_cache-update_auction_cache :
      (id : ℕ) (s : Store) → get_bid_cache r (update_auction_cache r id s) ≡ get_bid_cache r s
  unfolding get_bid_cache update_auction_cache text_eq
  get_bid_cache-update_auction_cache id s =
      ap text_or_empty (get_set auction_cache_key (to_decimal id) bid_cache_key s)

  pub get_bid_cache-update_auction_ending_soon_cache :
      (id : ℕ) (s : Store)
      → get_bid_cache r (update_auction_ending_soon_cache r id s) ≡ get_bid_cache r s
  unfolding get_bid_cache update_auction_ending_soon_cache text_eq
  get_bid_cache-update_auction_ending_soon_cache id s =
      ap text_or_empty (get_set auction_ending_soon_cache_key (to_decimal id) bid_cache_key s)

  pub get_proposal_cache-update_proposal_cache :
      (p : Proposal) (j : ℕ) (s : Store)
      → get_proposal_cache r j (update_proposal_cache r p s)
        ≡ (if p.id == j then some p else get_proposal_cache r j s)
  unfolding get_proposal_cache update_proposal_cache
  get_proposal_cache-update_proposal_cache p j s =
      ap (parse_or_null r)
        (get_set (proposal_cache_key p.id) (stringify p) (proposal_cache_key j) s)
      ∙ rw (proposal_keys p.id j) (elim (Bool-cases (p.id == j)) [
        | inl e ↦
            let (c, t, cons) = stringify_cons p in
            rw e
              (ap (λ u. parse_or_null r (some u)) cons ∙ (ap parse (sym cons) ∙ parse_stringify p))
        | inr e ↦ rw e refl
      ])

  pub get_proposal_cache-set_proposal_expiry_warning_sent :
      (i j : ℕ) (s : Store)
      → get_proposal_cache r j (set_proposal_expiry_warning_sent r i s) ≡ get_proposal_cache r j s
  unfolding get_proposal_cache set_proposal_expiry_warning_sent
  get_proposal_cache-set_proposal_expiry_warning_sent i j s =
      let apart =
        text_eq_comm (proposal_expiry_warning_sent_cache_key i) (proposal_cache_key j)
        ∙ proposal_warning_keys j i in
      ap (parse_or_null r) (
        get_set (proposal_expiry_warning_sent_cache_key i) (codes "1") (proposal_cache_key j) s
        ∙ rw apart refl)

  pub has_warned_of_expiry-set_proposal_expiry_warning_sent :
      (i j : ℕ) (s : Store)
      → has_warned_of_expiry r j (set_proposal_expiry_warning_sent r i s)
        ≡ (if i == j then true else has_warned_of_expiry r j s)
  unfolding has_warned_of_expiry set_proposal_expiry_warning_sent
  has_warned_of_expiry-set_proposal_expiry_warning_sent i j s =
      let own = proposal_expiry_warning_sent_cache_key j in
      let s' = set (proposal_expiry_warning_sent_cache_key i) (codes "1") s in
      exists_get own s'
      ∙ rw
          (
            get_set (proposal_expiry_warning_sent_cache_key i) (codes "1") own s,
            warning_keys i j,
            exists_get own s,
          )
          (elim (Bool-cases (i == j)) [ inl e ↦ rw e refl | inr e ↦ rw e refl ])

  pub has_warned_of_expiry-update_proposal_cache :
      (p : Proposal) (j : ℕ) (s : Store)
      → has_warned_of_expiry r j (update_proposal_cache r p s) ≡ has_warned_of_expiry r j s
  unfolding has_warned_of_expiry update_proposal_cache
  has_warned_of_expiry-update_proposal_cache p j s =
      let own = proposal_expiry_warning_sent_cache_key j in
      let s' = set (proposal_cache_key p.id) (stringify p) s in
      exists_get own s'
      ∙ (ap is_some (
            get_set (proposal_cache_key p.id) (stringify p) own s
            ∙ rw (proposal_warning_keys p.id j) refl)
          ∙ sym (exists_get own s))

  -- Two stores that hold the same, but for the tweet to reply to.
  abbrev pub Agree : Store → Store → Type 0
  Agree s s' = (key : Text) → text_eq reply_tweet_id_key key ≡ false → get key s' ≡ get key s

  module _ (s s' : Store) (agree : Agree s s') where
    pub get_auction_cache-Agree : get_auction_cache r s' ≡ get_auction_cache r s
    unfolding get_auction_cache text_eq
    get_auction_cache-Agree = ap number_or_zero (agree auction_cache_key refl)

    pub get_bid_cache-Agree : get_bid_cache r s' ≡ get_bid_cache r s
    unfolding get_bid_cache text_eq
    get_bid_cache-Agree = ap text_or_empty (agree bid_cache_key refl)

    pub get_auction_ending_soon_cache-Agree :
        get_auction_ending_soon_cache r s' ≡ get_auction_ending_soon_cache r s
    unfolding get_auction_ending_soon_cache text_eq
    get_auction_ending_soon_cache-Agree =
        ap number_or_zero (agree auction_ending_soon_cache_key refl)

    pub get_proposal_cache-Agree : (id : ℕ) → get_proposal_cache r id s' ≡ get_proposal_cache r id s
    unfolding get_proposal_cache text_eq proposal_cache_key
    get_proposal_cache-Agree id = ap (parse_or_null r) (agree (proposal_cache_key id) refl)

    pub has_warned_of_expiry-Agree :
        (id : ℕ) → has_warned_of_expiry r id s' ≡ has_warned_of_expiry r id s
    unfolding has_warned_of_expiry text_eq proposal_expiry_warning_sent_cache_key
    has_warned_of_expiry-Agree id =
        let own = proposal_expiry_warning_sent_cache_key id in
        exists_get own s' ∙ (ap is_some (agree own refl) ∙ sym (exists_get own s))
