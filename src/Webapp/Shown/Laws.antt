-- ===== src/Webapp/Shown/Laws.antt =====
-- What a page shows (packages/nouns-webapp/src/wrappers/onDisplayAuction.ts).
use sznouns.Prelude.{
  ℕ, ◌+◌, ◌≤◌, ◌≡◌, refl, sym, false, Option, none, some, List, [], ◌∷◌, arith, ltb, ltb→lt, ltb→le,
  ◌==◌, ==_iff, Bool-cases, inl, inr,
}
use mathlib.Core.List.{Perm}
use mathlib.Core.List.Perm
use sznouns.Webapp.Auction.{Auction, AuctionState, BidEvent}
use sznouns.Webapp.Founders.{
  is_nounder_noun, is_nouns_dao_noun, find_auction, empty_auction, generate_empty_auction,
}
use sznouns.Webapp.Shown.{
  IndexedAuction, redux_safe_past_auction, redux_safe_past_auctions, deserialize_auction, find_past,
  active_of, deserialize_some, deserialize_empty, use_on_display_auction, insert_bid,
  deserialize_bids,
}

-- Nothing, or an auction of this noun that is not settled.
abbrev pub Shows : ℕ → Option Auction → Type 0
Shows id none = Unit {0}
Shows id (some a) = (a.noun_id ≡ id) × (a.settled ≡ false)

find_auction-some :
    (id : ℕ) (auctions : List IndexedAuction)
    → (o : Option Auction) × (find_auction id (redux_safe_past_auctions auctions) ≡ some o)
unfolding find_auction redux_safe_past_auctions
find_auction-some id [] = (none, refl)
find_auction-some id (a ∷ auctions) = elim (Bool-cases (a.id == id)) [
  | inl t ↦ ((redux_safe_past_auction a).active_auction, rw t refl)
  | inr f ↦ let (o, e) = find_auction-some id auctions in (o, rw f e)
]

-- Nothing goes wrong, and what is shown is right.
abbrev pub IsShown : ℕ → Option (Option Auction) → Type 0
IsShown id r = (o : Option Auction) × (r ≡ some o) × Shows id o

empty_from :
    (id : ℕ) (past : List AuctionState) (o : Option Auction)
    → find_auction (id + 1) past ≡ some o
    → IsShown id (deserialize_empty (generate_empty_auction id past))
unfolding generate_empty_auction
empty_from id past none e =
    (some (empty_auction id), rw (e, generate_empty_auction) refl, (refl, refl))
empty_from id past (some above) e = (
  some (record (empty_auction id) { start_time = above.start_time }),
  rw (e, generate_empty_auction) refl,
  (refl, refl),
)

empty_IsShown :
    (id : ℕ) (auctions : List IndexedAuction)
    → IsShown id (deserialize_empty (generate_empty_auction id (redux_safe_past_auctions auctions)))
empty_IsShown id auctions =
    let (o, e) = find_auction-some (id + 1) auctions in
    empty_from id (redux_safe_past_auctions auctions) o e

past_IsShown :
    (id : ℕ) (auctions : List IndexedAuction)
    → IsShown id
        (some (deserialize_some (active_of (find_past id (redux_safe_past_auctions auctions)))))
unfolding find_past redux_safe_past_auctions
past_IsShown id [] = (none, refl, tt)
past_IsShown id (a ∷ auctions) = elim (Bool-cases (a.id == id)) [
  | inl t ↦ (
    deserialize_some (redux_safe_past_auction a).active_auction,
    rw t refl,
    ((==_iff a.id id).0 t, refl),
  )
  | inr f ↦ rw f (past_IsShown id auctions)
]

-- With past auctions from the index, whatever noun is on display and whatever auction is the current
-- one, no exception is thrown, and an auction that is shown is of that noun; it is shown as not settled.
pub use_on_display_auction-IsShown :
    (id : ℕ) (current : Auction) (auctions : List IndexedAuction)
    → IsShown id
        (use_on_display_auction (some id) (some current) (redux_safe_past_auctions auctions))
unfolding use_on_display_auction
use_on_display_auction-IsShown id current auctions = elim (Bool-cases (id == current.noun_id)) [
  | inl t ↦
      (some (deserialize_auction current), rw t refl, (sym ((==_iff id current.noun_id).0 t), refl))
  | inr f ↦ elim (Bool-cases (is_nounder_noun id)) [
    | inl n ↦ rw (f, n) (empty_IsShown id auctions)
    | inr n ↦ elim (Bool-cases (is_nouns_dao_noun id)) [
      | inl d ↦ rw (f, n, d) (empty_IsShown id auctions)
      | inr d ↦ rw (f, n, d) (past_IsShown id auctions)
    ]
  ]
]

-- The newest first.
abbrev pub IsNewestFirst : List BidEvent → Type 0
IsNewestFirst [] = Unit {0}
IsNewestFirst (b ∷ []) = Unit {0}
IsNewestFirst (b ∷ c ∷ bids) = (c.timestamp ≤ b.timestamp) × IsNewestFirst (c ∷ bids)

insert_bid-perm : (b : BidEvent) (bids : List BidEvent) → Perm (insert_bid b bids) (b ∷ bids)
insert_bid-perm b [] = Perm.refl (b ∷ [])
insert_bid-perm b (c ∷ bids) = elim (Bool-cases (ltb b.timestamp c.timestamp)) [
  | inr f ↦ rw f (Perm.refl (b ∷ c ∷ bids))
  | inl t ↦ rw t (Perm.trans (Perm.cons c (insert_bid-perm b bids)) (Perm.swap b c bids))
]

insert_bid-IsNewestFirst :
    (b : BidEvent) (bids : List BidEvent) → IsNewestFirst bids → IsNewestFirst (insert_bid b bids)
insert_bid-IsNewestFirst b [] h = tt
insert_bid-IsNewestFirst b (c ∷ []) h = ground arith
insert_bid-IsNewestFirst b (c ∷ d ∷ bids) (e, h) =
    let rest = insert_bid-IsNewestFirst b (d ∷ bids) h in
    elim (Bool-cases (ltb b.timestamp c.timestamp)) [
      | inr f ↦ rw f (ltb→le b.timestamp c.timestamp f, (e, h))
      | inl t ↦ elim (Bool-cases (ltb b.timestamp d.timestamp)) [
        | inl u ↦ rw (t, u) (e, rw u at rest)
        | inr g ↦ rw (t, g) (omega (arith, ltb→lt b.timestamp c.timestamp t), rw g at rest)
      ]
    ]

-- A page's bids are those that were stored, the newest first.
pub deserialize_bids-sorted :
    (bids : List BidEvent)
    → Perm (deserialize_bids bids) bids × IsNewestFirst (deserialize_bids bids)
unfolding deserialize_bids
deserialize_bids-sorted [] = (Perm.refl [], tt)
deserialize_bids-sorted (b ∷ bids) =
    let (perm, sorted) = deserialize_bids-sorted bids in
    (
      Perm.trans (insert_bid-perm b (deserialize_bids bids)) (Perm.cons b perm),
      insert_bid-IsNewestFirst b (deserialize_bids bids) sorted,
    )
