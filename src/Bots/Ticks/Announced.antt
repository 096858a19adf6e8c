-- ===== src/Bots/Ticks/Announced.antt =====
-- What followers of the bot (packages/nouns-bots/src/index.ts) are told of auctions over its whole run.
use sznouns.Prelude.{
  ℕ, ◌≡◌, refl, ap, ◌∙◌, true, Option, some, List, [], ◌∷◌, arith, All, max, ltb, ltb→lt, ltb→le,
  Text, text_eq, Bool-cases, inl, inr, codes,
}
use sznouns.Bots.{Redis, AuctionBids, Bid}
use sznouns.Bots.Cache.{get_auction_cache, get_bid_cache, get_auction_ending_soon_cache}
use sznouns.Bots.Cache.Laws
use sznouns.Bots.Ticks.{
  World, Env, ◌>>◌, increment_counter, setup_auction, announce_auction, announce_bid,
  announce_ending_soon, process_auction_tick, process_auction_ticks,
}
use sznouns.Bots.Ticks.Orderly.{
  auctions_of, endings_of, bids_of, latest, IsDescending, IsChanging, IsOrderly,
}
use sznouns.Bots.Ticks.Runs.{
  discovered_counter, bind_keeps, announce_auction_world, announce_ending_soon_world,
  process_auction_ticks-IsOrderly, process_auction_tick-IsOrderly,
}

-- The highest of an auction and those of ticks.
abbrev pub highest {ℓ} : {E : Type ℓ} → ℕ → List (E × AuctionBids) → ℕ
highest id [] = id
highest id ((env, last) ∷ ticks) = highest (max id last.id) ticks

module _ (r : Redis) where
  open r use {Store}

  -- The world that the bot starts in, once it has seeded its cache.
  abbrev pub start : AuctionBids → Store → World r
  start first s = (setup_auction r first (record { store = s; told = [] })).0

  abbrev pub IsCounted : Env r × AuctionBids → Type 0
  IsCounted (env, last) = env.counter discovered_counter ≡ true

  start-IsOrderly :
      (first : AuctionBids) (s : Store) (ending : ℕ)
      → get_auction_ending_soon_cache r s ≡ some ending
      → IsOrderly r first.id (get_bid_cache r s) ending (start first s)
  unfolding setup_auction
  start-IsOrderly first s ending e = record {
    auction_cached = Laws.get_auction_cache-update_auction_cache r first.id s;
    auctions = tt;
    bid_cached = Laws.get_bid_cache-update_auction_cache r first.id s;
    bids = tt;
    ending_cached = Laws.get_auction_ending_soon_cache-update_auction_cache r first.id s ∙ e;
    endings = tt;
  }

  -- From a store whose mark for auctions that end soon is a number, and whatever the counters and the
  -- handlers answer, rejections included: the new auctions that are told are strictly ascending, from
  -- above the one at the start, those that end soon are strictly ascending, from above the mark, and
  -- no bid is told that is the one told before, or at first the one in the cache. So no auction is
  -- told twice.
  pub process_auction_ticks-once :
      (ticks : List (Env r × AuctionBids)) (first : AuctionBids) (s : Store) (ending : ℕ)
      → get_auction_ending_soon_cache r s ≡ some ending
      → let w = process_auction_ticks r ticks (start first s) in
        IsDescending first.id (auctions_of w.told)
        × IsDescending ending (endings_of w.told)
        × IsChanging (get_bid_cache r s) (bids_of w.told)
  process_auction_ticks-once ticks first s ending e =
      let o =
        process_auction_ticks-IsOrderly r first.id (get_bid_cache r s) ending ticks (start first s)
          (start-IsOrderly first s ending e) in
      (o.auctions, o.endings, o.bids)

  announce_bid-auctions_of :
      (env : Env r) (last : AuctionBids) (bids : List Bid) (cached : Text) (w : World r)
      → auctions_of (announce_bid r env last bids cached w).0.told ≡ auctions_of w.told
  unfolding announce_bid
  announce_bid-auctions_of env last [] cached w = refl
  announce_bid-auctions_of env last (b ∷ bids) cached w = elim (Bool-cases (text_eq cached b.id)) [
    | inl t ↦ rw t refl
    | inr f ↦ rw f refl
  ]

  announce_ending_soon-auctions_of :
      (env : Env r) (last : AuctionBids) (cached : Option ℕ) (w : World r)
      → auctions_of (announce_ending_soon r env last cached w).0.told ≡ auctions_of w.told
  announce_ending_soon-auctions_of env last cached w =
      ap (λ (v : World r). auctions_of v.told) (announce_ending_soon_world r env last cached w)
      ∙ ground arith

  process_auction_tick-auctions_of :
      (env : Env r) (last : AuctionBids) (w : World r)
      → auctions_of (process_auction_tick r env last w).0.told
        ≡ auctions_of (announce_auction r env last (get_auction_cache r w.store) w).0.told
  unfolding process_auction_tick
  process_auction_tick-auctions_of env last w =
      let ending_soon = get_auction_ending_soon_cache r w.store in
      let m3 = announce_bid r env last last.bids (get_bid_cache r w.store) in
      let k4 = announce_ending_soon r env last ending_soon in
      let k3 = ◌>>◌ r m3 k4 in
      let m1 = announce_auction r env last (get_auction_cache r w.store) in
      let w1 = (m1 w).0 in
      let Same = λ (v : World r). auctions_of v.told ≡ auctions_of w1.told in
      let same3 = announce_bid-auctions_of env last last.bids (get_bid_cache r w.store) w1 in
      let same4 = announce_ending_soon-auctions_of env last ending_soon (m3 w1).0 ∙ same3 in
      let m2 = increment_counter r env (codes "auction_process_last_auction") in
      bind_keeps r Same m1 (◌>>◌ r m2 k3) w refl
        (bind_keeps r Same m2 k3 w1 refl (bind_keeps r Same m3 k4 w1 same3 same4))

  process_auction_tick-latest :
      (env : Env r) (last : AuctionBids) (w : World r) (auction : ℕ) (bid : Text) (ending : ℕ)
      → IsOrderly r auction bid ending w
      → env.counter discovered_counter ≡ true
      → latest auction (auctions_of (process_auction_tick r env last w).0.told)
        ≡ max (latest auction (auctions_of w.told)) last.id
  process_auction_tick-latest env last w auction bid ending o counted =
      let at =
        ap (λ (v : World r). auctions_of v.told)
          (announce_auction_world r env last (get_auction_cache r w.store) w) in
      ap (latest auction) (process_auction_tick-auctions_of env last w ∙ at)
      ∙ rw (o.auction_cached, counted)
          (elim (Bool-cases (ltb (latest auction (auctions_of w.told)) last.id)) [
            | inl t ↦ rw t (omega (arith, ltb→lt (latest auction (auctions_of w.told)) last.id t))
            | inr f ↦ rw f (omega (arith, ltb→le (latest auction (auctions_of w.told)) last.id f))
          ])

  latest_run :
      (ticks : List (Env r × AuctionBids)) (w : World r) (auction : ℕ) (bid : Text) (ending : ℕ)
      → IsOrderly r auction bid ending w
      → All IsCounted ticks
      → latest auction (auctions_of (process_auction_ticks r ticks w).told)
        ≡ highest (latest auction (auctions_of w.told)) ticks
  unfolding process_auction_ticks
  latest_run [] w auction bid ending o all = refl
  latest_run ((env, last) ∷ ticks) w auction bid ending o (counted, all) =
      latest_run ticks (process_auction_tick r env last w).0 auction bid ending
        (process_auction_tick-IsOrderly r auction bid ending env last w o) all
      ∙ ap (λ id. highest id ticks)
          (process_auction_tick-latest env last w auction bid ending o counted)

  -- If each tick's first counter can be posted, and whatever the other counters and the handlers
  -- answer, then the last auction that was told, or the one at the start where none was, is the
  -- highest that the subgraph showed.
  pub process_auction_ticks-latest :
      (ticks : List (Env r × AuctionBids)) (first : AuctionBids) (s : Store) (ending : ℕ)
      → get_auction_ending_soon_cache r s ≡ some ending
      → All IsCounted ticks
      → latest first.id (auctions_of (process_auction_ticks r ticks (start first s)).told)
        ≡ highest first.id ticks
  unfolding setup_auction
  process_auction_ticks-latest ticks first s ending e all =
      latest_run ticks (start first s) first.id (get_bid_cache r s) ending
        (start-IsOrderly first s ending e) all
