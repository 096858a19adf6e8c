-- ===== src/Webapp/Auction/Bids.antt =====
-- The bids of the current auction (packages/nouns-webapp/src/state/slices/auction.ts): no bid stands there
-- twice, and the auction shows the highest one.
use sznouns.Prelude.{
  ◌≤◌, ◌≡◌, refl, ap, sym, subst, Bool, true, false, some, List, [], ◌∷◌, ltb, arith, All,
  if◌then◌else◌, Bool-cases, inl, inr, ◌⊎◌,
}
use sznouns.Webapp.Auction.{
  Auction, BidEvent, AuctionCreateEvent, AuctionExtendedEvent, AuctionSettledEvent, AuctionState,
  initial_state, max_bid, contains_bid, set_active_auction, set_full_auction, append_bid,
  set_auction_settled, set_auction_extended,
}

pub data Action : Type 0 where
  active : AuctionCreateEvent → Action
  full : Auction → Action
  bid : BidEvent → Action
  settled : AuctionSettledEvent → Action
  extended : AuctionExtendedEvent → Action

unfoldable pub reducer : Action → AuctionState → AuctionState
reducer (active e) = set_active_auction e
reducer (full a) = set_full_auction a
reducer (bid e) = append_bid e
reducer (settled e) = set_auction_settled e
reducer (extended e) = set_auction_extended e

unfoldable pub run : List Action → AuctionState → AuctionState
run [] state = state
run (a ∷ actions) state = run actions (reducer a state)

-- No bid has the transaction of one behind it.
unfoldable pub all_new : List BidEvent → Bool
all_new [] = true
all_new (b ∷ bids) = let rest = all_new bids in if contains_bid bids b then false else rest

reducer-all_new :
    (a : Action) (state : AuctionState)
    → all_new state.bids ≡ true
    → all_new (reducer a state).bids ≡ true
unfolding reducer set_active_auction set_full_auction append_bid set_auction_settled
    set_auction_extended all_new
reducer-all_new (active e) state h = refl
reducer-all_new (full a) state h = h
reducer-all_new (bid e) state h = ground arith
reducer-all_new (settled e) state h = ground arith
reducer-all_new (extended e) state h = ground arith

run_from-all_new :
    (actions : List Action) (state : AuctionState)
    → all_new state.bids ≡ true
    → all_new (run actions state).bids ≡ true
unfolding run
run_from-all_new [] state h = h
run_from-all_new (a ∷ actions) state h =
    run_from-all_new actions (reducer a state) (reducer-all_new a state h)

-- After any actions from the initial state, no two bids of the state have the same transaction.
pub run-all_new : (actions : List Action) → all_new (run actions initial_state).bids ≡ true
unfolding all_new
run-all_new actions = run_from-all_new actions initial_state refl

-- A bid of a list.
unfoldable pub Among : BidEvent → List BidEvent → Type 0
Among b [] = true ≡ false
Among b (c ∷ bids) = (b ≡ c) ⊎ Among b bids

max_bid-less :
    (prev current : BidEvent) (bids : List BidEvent)
    → ltb current.value prev.value ≡ true
    → max_bid prev bids ≡ max_bid prev (current ∷ bids)
unfolding max_bid
max_bid-less prev current bids less =
    ap (λ t. max_bid (if t then prev else current) bids) (sym less)

max_bid-more :
    (prev current : BidEvent) (bids : List BidEvent)
    → ltb current.value prev.value ≡ false
    → max_bid current bids ≡ max_bid prev (current ∷ bids)
unfolding max_bid
max_bid-more prev current bids more =
    ap (λ t. max_bid (if t then prev else current) bids) (sym more)

-- No bid of a list is higher.
abbrev pub IsBest : BidEvent → List BidEvent → Type 0
IsBest best = All (λ (b : BidEvent). b.value ≤ best.value)

max_bid-IsBest : (prev : BidEvent) (bids : List BidEvent) → IsBest (max_bid prev bids) (prev ∷ bids)
unfolding max_bid
max_bid-IsBest prev [] = (omega arith, tt)
max_bid-IsBest prev (current ∷ bids) = elim (Bool-cases (ltb current.value prev.value)) [
  | inl less ↦
      let (h, all) = max_bid-IsBest prev bids in
      subst (λ m. IsBest m (prev ∷ current ∷ bids)) (max_bid-less prev current bids less)
        ((h, (ground (arith, h, less), all)))
  | inr more ↦
      let (h, all) = max_bid-IsBest current bids in
      subst (λ m. IsBest m (prev ∷ current ∷ bids)) (max_bid-more prev current bids more)
        ((ground (arith, h, more), (h, all)))
]

max_bid-Among : (prev : BidEvent) (bids : List BidEvent) → Among (max_bid prev bids) (prev ∷ bids)
unfolding max_bid Among
max_bid-Among prev [] = inl refl
max_bid-Among prev (current ∷ bids) = elim (Bool-cases (ltb current.value prev.value)) [
  | inl less ↦
      subst (λ m. Among m (prev ∷ current ∷ bids)) (max_bid-less prev current bids less)
        (elim (max_bid-Among prev bids) [ inl e ↦ inl e | inr m ↦ inr (inr m) ])
  | inr more ↦
      subst (λ m. Among m (prev ∷ current ∷ bids)) (max_bid-more prev current bids more)
        (inr (max_bid-Among current bids))
]

-- A bid on the active auction whose transaction is not yet there is put in front of the bids; the
-- auction's amount and bidder are then those of one of the bids, than which no bid is higher; and
-- nothing else in the auction changed.
pub append_bid-IsBest :
    (e : BidEvent) (state : AuctionState) (a : Auction)
    → state.active_auction ≡ some a
    → a.noun_id ≡ e.noun_id
    → contains_bid state.bids e ≡ false
    → (best : BidEvent) × Among best (e ∷ state.bids)
      × IsBest best (e ∷ state.bids)
      × (append_bid e state ≡ record {
        active_auction = some (record a { amount = best.value; bidder = best.sender });
        bids = e ∷ state.bids;
      })
unfolding append_bid
append_bid-IsBest e state a active_is same new = (
  max_bid e state.bids,
  max_bid-Among e state.bids,
  max_bid-IsBest e state.bids,
  rw (active_is, append_bid) (ground (arith, new)),
)
