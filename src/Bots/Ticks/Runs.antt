-- ===== src/Bots/Ticks/Runs.antt =====
-- The notices of a run of the auction loop of packages/nouns-bots/src/index.ts.
use sznouns.Prelude.{
  ℕ, ◌+◌, ◌*◌, ◌≡◌, refl, sym, ap, subst, ◌∙◌, ◌&&◌, Option, List, [], ◌∷◌, arith, ltb,
  if◌then◌else◌, Text, text_eq, Bool-cases, inl, inr, codes,
}
use sznouns.Bots.{Redis, AuctionBids, Bid, new_auction, new_bid, auction_ending_soon}
use sznouns.Bots.Cache.{
  get_auction_cache, get_bid_cache, get_auction_ending_soon_cache, update_auction_cache,
  update_bid_cache, update_auction_ending_soon_cache,
}
use sznouns.Bots.Cache.Laws
use sznouns.Bots.Ticks.{
  lt_number, World, Env, Action, ◌>>◌, increment_counter, tell, announce_auction, announce_bid,
  announce_ending_soon, process_auction_tick, process_auction_ticks, build_counter_name,
}
use sznouns.Bots.Ticks.Orderly.{
  IsOrderly, told, tell-Agree, told-auction-IsOrderly, told-bid-IsOrderly, told-ending-IsOrderly,
}

-- The counter that a new auction waits for.
abbrev pub discovered_counter : Text
discovered_counter = build_counter_name (codes "auctions_discovered")

module _ (r : Redis) where
  open r use {Store}

  pub bind_keeps :
      (P : World r → Type 0) (m k : Action r) (w : World r)
      → P (m w).0
      → P (k (m w).0).0
      → P (◌>>◌ r m k w).0
  bind_keeps P m k w first second = elim (Bool-cases (m w).1) [
    | inl ok ↦ rw ok second
    | inr bad ↦ rw bad first
  ]

  pub announce_auction_world :
      (env : Env r) (last : AuctionBids) (cached : Option ℕ) (w : World r)
      → (announce_auction r env last cached w).0 ≡ (
          if lt_number cached last.id
          then if env.counter discovered_counter
            then told r env (update_auction_cache r last.id) (new_auction last.id) w
            else w
          else w)
  unfolding announce_auction
  announce_auction_world env last cached w = ground arith

  pub announce_bid_world :
      (env : Env r) (last : AuctionBids) (bid : Bid) (bids : List Bid) (cached : Text) (w : World r)
      → (announce_bid r env last (bid ∷ bids) cached w).0 ≡ (
          if text_eq cached bid.id
          then w
          else told r env (update_bid_cache r bid.id) (new_bid last.id bid) w)
  unfolding announce_bid
  announce_bid_world env last bid bids cached w = ground arith

  pub announce_ending_soon_world :
      (env : Env r) (last : AuctionBids) (cached : Option ℕ) (w : World r)
      → (announce_ending_soon r env last cached w).0 ≡ (
          if ltb last.end_time (env.now + 20 * 60) && lt_number cached last.id
          then told r env
              (update_auction_ending_soon_cache r last.id)
              (auction_ending_soon last.id)
              w
          else w)
  unfolding announce_ending_soon
  announce_ending_soon_world env last cached w = ground arith

  module _ (auction : ℕ) (bid : Text) (ending : ℕ) where
    abbrev pub Orderly : World r → Type 0
    Orderly = IsOrderly r auction bid ending

    announce_auction-IsOrderly :
        (env : Env r) (last : AuctionBids) (w : World r)
        → Orderly w
        → let w' = (announce_auction r env last (get_auction_cache r w.store) w).0 in
          Orderly w'
          × (get_bid_cache r w'.store ≡ get_bid_cache r w.store)
          × (get_auction_ending_soon_cache r w'.store ≡ get_auction_ending_soon_cache r w.store)
    announce_auction-IsOrderly env last w o =
        let Kept = λ (w' : World r).
          Orderly w'
          × (get_bid_cache r w'.store ≡ get_bid_cache r w.store)
          × (get_auction_ending_soon_cache r w'.store ≡ get_auction_ending_soon_cache r w.store) in
        subst Kept (sym (announce_auction_world env last (get_auction_cache r w.store) w))
          (elim (Bool-cases (lt_number (get_auction_cache r w.store) last.id)) [
            | inr f ↦ rw f (o, refl, refl)
            | inl t ↦ elim (Bool-cases (env.counter discovered_counter)) [
              | inr f ↦ rw (t, f) (o, refl, refl)
              | inl c ↦
                  let s = update_auction_cache r last.id w.store in
                  let s' = (tell r env.handlers (new_auction last.id) s).0 in
                  let agree = tell-Agree r env.handlers (new_auction last.id) s in
                  rw (t, c)
                    (
                      told-auction-IsOrderly r auction bid ending env last.id w o t,
                      Laws.get_bid_cache-Agree r s s' agree
                          ∙ Laws.get_bid_cache-update_auction_cache r last.id w.store,
                      Laws.get_auction_ending_soon_cache-Agree r s s' agree
                          ∙ Laws.get_auction_ending_soon_cache-update_auction_cache r last.id
                              w.store,
                    )
            ]
          ])

    announce_bid-IsOrderly :
        (env : Env r) (last : AuctionBids) (bids : List Bid) (cached : Text) (w : World r)
        → get_bid_cache r w.store ≡ cached
        → Orderly w
        → let w' = (announce_bid r env last bids cached w).0 in
          Orderly w'
          × (get_auction_ending_soon_cache r w'.store ≡ get_auction_ending_soon_cache r w.store)
    unfolding announce_bid
    announce_bid-IsOrderly env last [] cached w e o = (o, refl)
    announce_bid-IsOrderly env last (b ∷ bids) cached w e o =
        elim (Bool-cases (text_eq cached b.id)) [
          | inl t ↦ rw t (o, refl)
          | inr f ↦
              let s = update_bid_cache r b.id w.store in
              let n = new_bid last.id b in
              let agree = tell-Agree r env.handlers n s in
              rw f (
                told-bid-IsOrderly r auction bid ending env last.id b w o
                    (ap (λ t. text_eq t b.id) e ∙ f),
                Laws.get_auction_ending_soon_cache-Agree r s (tell r env.handlers n s).0 agree
                    ∙ Laws.get_auction_ending_soon_cache-update_bid_cache r b.id w.store,
              )
        ]

    announce_ending_soon-IsOrderly :
        (env : Env r) (last : AuctionBids) (cached : Option ℕ) (w : World r)
        → get_auction_ending_soon_cache r w.store ≡ cached
        → Orderly w
        → Orderly (announce_ending_soon r env last cached w).0
    announce_ending_soon-IsOrderly env last cached w e o =
        subst Orderly (sym (announce_ending_soon_world env last cached w))
          (elim (Bool-cases (ltb last.end_time (env.now + 20 * 60))) [
            | inr f ↦ rw f o
            | inl near ↦ elim (Bool-cases (lt_number cached last.id)) [
              | inr f ↦ rw (near, f) o
              | inl t ↦
                  rw (near, t)
                    (told-ending-IsOrderly r auction bid ending env last.id w o
                      (ap (λ c. lt_number c last.id) e ∙ t))
            ]
          ])

    pub process_auction_tick-IsOrderly :
        (env : Env r) (last : AuctionBids) (w : World r)
        → Orderly w
        → Orderly (process_auction_tick r env last w).0
    unfolding process_auction_tick
    process_auction_tick-IsOrderly env last w o =
        let cached_bid_id = get_bid_cache r w.store in
        let ending_soon = get_auction_ending_soon_cache r w.store in
        let k4 = announce_ending_soon r env last ending_soon in
        let k3 = ◌>>◌ r (announce_bid r env last last.bids cached_bid_id) k4 in
        let k2 = ◌>>◌ r (increment_counter r env (codes "auction_process_last_auction")) k3 in
        let m1 = announce_auction r env last (get_auction_cache r w.store) in
        let w1 = (m1 w).0 in
        let (o1, bid1, ending1) = announce_auction-IsOrderly env last w o in
        let (o2, ending2) = announce_bid-IsOrderly env last last.bids cached_bid_id w1 bid1 o1 in
        let w2 = (announce_bid r env last last.bids cached_bid_id w1).0 in
        let o3 = announce_ending_soon-IsOrderly env last ending_soon w2 (ending2 ∙ ending1) o2 in
        let after3 =
          bind_keeps Orderly (announce_bid r env last last.bids cached_bid_id) k4 w1 o2 o3 in
        let after2 =
          bind_keeps Orderly (increment_counter r env (codes "auction_process_last_auction")) k3 w1
            o1 after3 in
        bind_keeps Orderly m1 k2 w o1 after2

    pub process_auction_ticks-IsOrderly :
        (ticks : List (Env r × AuctionBids)) (w : World r)
        → Orderly w
        → Orderly (process_auction_ticks r ticks w)
    unfolding process_auction_ticks
    process_auction_ticks-IsOrderly [] w o = o
    process_auction_ticks-IsOrderly ((env, last) ∷ ticks) w o =
        process_auction_ticks-IsOrderly ticks (process_auction_tick r env last w).0
          (process_auction_tick-IsOrderly env last w o)
