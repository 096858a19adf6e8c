-- ===== src/Subgraph/Auctions/Bids.antt =====
-- What the index says of an auction after its events (packages/nouns-subgraph/src/nouns-auction-house.ts).
use sznouns.Prelude.{
  ◌≡◌, refl, ap, ◌∙◌, true, some, List, [], ◌∷◌, arith, if◌then◌else◌, Text, text_eq, text_eq_iff,
  Option-cases, inl, inr,
}
use sznouns.Subgraph.Graph.{Graph, IsKeyed, save-IsKeyed}
use sznouns.Subgraph.Entities.{Auction, Account, Store}
use sznouns.Subgraph.Helpers.{get_or_create_account, new_account}
use sznouns.Subgraph.Auctions.{
  AuctionBid, handle_auction_bid, AuctionExtended, handle_auction_extended, AuctionSettled,
  handle_auction_settled, place_bid,
}

-- The auction's events after its creation.
pub data AuctionEvent : Type 0 where
  bid : AuctionBid → AuctionEvent
  extended : AuctionExtended → AuctionEvent
  settled : AuctionSettled → AuctionEvent

module _ (g : Graph) where
  open g use {load, save, load_save, to_string, to_hex_string}

  -- The event handlers one after the other.
  unfoldable pub handle_all : List AuctionEvent → Store g → Store g
  handle_all [] s = s
  handle_all (bid e ∷ es) s = handle_all es (handle_auction_bid g e s)
  handle_all (extended e ∷ es) s = handle_all es (handle_auction_extended g e s)
  handle_all (settled e ∷ es) s = handle_all es (handle_auction_settled g e s)

  -- What one event says of the auction with this id.
  unfoldable pub apply_event : Text → AuctionEvent → Auction → Auction
  apply_event id (bid e) a =
      if text_eq (to_string e.noun_id) id
      then record a { amount = e.value; bidder = some (to_hex_string e.sender) }
      else a
  apply_event id (extended e) a =
      if text_eq (to_string e.noun_id) id then record a { end_time = e.end_time } else a
  apply_event id (settled e) a =
      if text_eq (to_string e.noun_id) id then record a { settled = true } else a

  unfoldable pub apply_all : Text → List AuctionEvent → Auction → Auction
  unfolding apply_event
  apply_all id [] a = a
  apply_all id (e ∷ es) a = apply_all id es (apply_event id e a)

  pub record IsIndexed (s : Store g) : Type 0 where
    pub auctions : IsKeyed g (λ (a : Auction). a.id) s.auctions
    pub accounts : IsKeyed g (λ (a : Account). a.id) s.accounts

  -- The account that is loaded or created has the id that was asked for.
  bidder_id : (id : Text) (s : Store g) → IsIndexed s → (get_or_create_account g id s).1.id ≡ id
  unfolding get_or_create_account
  bidder_id id s h = elim (Option-cases (load id s.accounts)) [
    | inl new ↦ rw (new, get_or_create_account)
    | inr (a, old) ↦ rw (old, get_or_create_account) (h.accounts.own_id id a old)
  ]

  auctions-get_or_create_account :
      (id : Text) (s : Store g) → (get_or_create_account g id s).0.auctions ≡ s.auctions
  unfolding get_or_create_account
  auctions-get_or_create_account id s = ground arith

  get_or_create_account-IsIndexed :
      (id : Text) (s : Store g) → IsIndexed s → IsIndexed (get_or_create_account g id s).0
  unfolding get_or_create_account
  get_or_create_account-IsIndexed id s h = elim (Option-cases (load id s.accounts)) [
    | inl new ↦
        rw (new, get_or_create_account)
          (record {
            auctions = h.auctions;
            accounts = save-IsKeyed g _ id (new_account id) s.accounts refl h.accounts;
          })
    | inr (a, old) ↦ rw (old, get_or_create_account) h
  ]

  -- Changing the auction that an event names: `found` is what the handler loads.
  save-load :
      (s : Store g) (key id : Text) (found a new : Auction)
      → IsIndexed s
      → load key s.auctions ≡ some found
      → load id s.auctions ≡ some a
      → (new.id ≡ found.id)
      → load id (save new.id new s.auctions) ≡ some (if text_eq key id then new else a)
  save-load s key id found a new h e e' same =
      let own : found.id ≡ key = h.auctions.own_id key found e in
      ground (arith, load_save new.id id new s.auctions, text_eq_iff key id, text_eq_iff new.id id)

  place_bid-load :
      (e : AuctionBid) (bidder : Text) (s : Store g) (id : Text) (a : Auction)
      → IsIndexed s
      → load id s.auctions ≡ some a
      → load id (place_bid g e bidder s).auctions
        ≡ some (
            if text_eq (to_string e.noun_id) id
            then record a { amount = e.value; bidder = some bidder }
            else a)
  unfolding place_bid
  place_bid-load e bidder s id a h found =
      elim (Option-cases (load (to_string e.noun_id) s.auctions)) [
        | inl missing ↦ ground (arith, text_eq_iff (to_string e.noun_id) id)
        | inr (b, there) ↦ ground (
          arith,
          save-load s (to_string e.noun_id) id b a
              (record b { amount = e.value; bidder = some bidder }) h there found refl,
          text_eq_iff (to_string e.noun_id) id,
        )
      ]

  place_bid-IsIndexed :
      (e : AuctionBid) (bidder : Text) (s : Store g)
      → IsIndexed s
      → IsIndexed (place_bid g e bidder s)
  unfolding place_bid
  place_bid-IsIndexed e bidder s h = elim (Option-cases (load (to_string e.noun_id) s.auctions)) [
    | inl missing ↦
        rw (missing, place_bid) (record { auctions = h.auctions; accounts = h.accounts })
    | inr (b, there) ↦
        rw (there, place_bid)
          (record {
            auctions =
                save-IsKeyed g _ b.id (record b { amount = e.value; bidder = some bidder })
                  s.auctions refl h.auctions;
            accounts = h.accounts;
          })
  ]

  handle_event : AuctionEvent → Store g → Store g
  handle_event (bid e) s = handle_auction_bid g e s
  handle_event (extended e) s = handle_auction_extended g e s
  handle_event (settled e) s = handle_auction_settled g e s

  handle_event-IsIndexed :
      (e : AuctionEvent) (s : Store g) → IsIndexed s → IsIndexed (handle_event e s)
  unfolding handle_event handle_auction_bid handle_auction_extended handle_auction_settled
  handle_event-IsIndexed (bid e) s h =
      place_bid-IsIndexed e _ _ (get_or_create_account-IsIndexed (to_hex_string e.sender) s h)
  handle_event-IsIndexed (extended e) s h =
      elim (Option-cases (load (to_string e.noun_id) s.auctions)) [
        | inl missing ↦
            rw (missing, handle_auction_extended)
              (record { auctions = h.auctions; accounts = h.accounts })
        | inr (b, there) ↦
            rw (there, handle_auction_extended)
              (record {
                auctions =
                    save-IsKeyed g _ b.id (record b { end_time = e.end_time }) s.auctions refl
                      h.auctions;
                accounts = h.accounts;
              })
      ]
  handle_event-IsIndexed (settled e) s h =
      elim (Option-cases (load (to_string e.noun_id) s.auctions)) [
        | inl missing ↦
            rw (missing, handle_auction_settled)
              (record { auctions = h.auctions; accounts = h.accounts })
        | inr (b, there) ↦
            rw (there, handle_auction_settled)
              (record {
                auctions =
                    save-IsKeyed g _ b.id (record b { settled = true }) s.auctions refl h.auctions;
                accounts = h.accounts;
              })
      ]

  handle_event-load :
      (e : AuctionEvent) (s : Store g) (id : Text) (a : Auction)
      → IsIndexed s
      → load id s.auctions ≡ some a
      → load id (handle_event e s).auctions ≡ some (apply_event id e a)
  unfolding handle_event handle_auction_bid handle_auction_extended handle_auction_settled
      apply_event
  handle_event-load (bid e) s id a h found =
      let sender = to_hex_string e.sender in
      let kept = auctions-get_or_create_account sender s in
      place_bid-load e _ _ id a (get_or_create_account-IsIndexed sender s h) (rw kept found)
      ∙ ap
          (λ k. some (
            if text_eq (to_string e.noun_id) id
            then record a { amount = e.value; bidder = some k }
            else a))
          (bidder_id sender s h)
  handle_event-load (extended e) s id a h found =
      elim (Option-cases (load (to_string e.noun_id) s.auctions)) [
        | inl missing ↦ ground (arith, text_eq_iff (to_string e.noun_id) id)
        | inr (b, there) ↦ ground (
          arith,
          save-load s (to_string e.noun_id) id b a (record b { end_time = e.end_time }) h there
              found refl,
          text_eq_iff (to_string e.noun_id) id,
        )
      ]
  handle_event-load (settled e) s id a h found =
      elim (Option-cases (load (to_string e.noun_id) s.auctions)) [
        | inl missing ↦ ground (arith, text_eq_iff (to_string e.noun_id) id)
        | inr (b, there) ↦ ground (
          arith,
          save-load s (to_string e.noun_id) id b a (record b { settled = true }) h there found refl,
          text_eq_iff (to_string e.noun_id) id,
        )
      ]

  -- If every auction and account is stored under its id and the index has an auction, then after any
  -- bids, extensions and settlements the index has for it what its own events say: the amount and
  -- the bidder of its last bid, its last end time, and whether it was settled.
  pub handle_all-load :
      (es : List AuctionEvent) (s : Store g) (id : Text) (a : Auction)
      → IsIndexed s
      → load id s.auctions ≡ some a
      → load id (handle_all es s).auctions ≡ some (apply_all id es a)
  unfolding handle_all apply_all handle_event
  handle_all-load [] s id a h found = found
  handle_all-load (bid e ∷ es) s id a h found =
      handle_all-load es (handle_auction_bid g e s) id (apply_event id (bid e) a)
        (handle_event-IsIndexed (bid e) s h) (handle_event-load (bid e) s id a h found)
  handle_all-load (extended e ∷ es) s id a h found =
      handle_all-load es (handle_auction_extended g e s) id (apply_event id (extended e) a)
        (handle_event-IsIndexed (extended e) s h) (handle_event-load (extended e) s id a h found)
  handle_all-load (settled e ∷ es) s id a h found =
      handle_all-load es (handle_auction_settled g e s) id (apply_event id (settled e) a)
        (handle_event-IsIndexed (settled e) s h) (handle_event-load (settled e) s id a h found)
