-- ===== src/Bots/Ticks.antt =====
-- The bot's auction loop (packages/nouns-bots/src/index.ts). An action ends with a new world and whether
-- it resolved; a rejected one ends the actions after it.
pub mod Orderly
pub mod Runs
pub mod Announced
use sznouns.Prelude.{
  ℕ, ◌+◌, ◌*◌, Bool, true, false, ◌&&◌, Option, none, some, List, [], ◌∷◌, ◌++◌, ltb, if◌then◌else◌,
  Text, text_eq, codes,
}
use sznouns.Bots.{Redis, AuctionBids, Bid, Notice, new_auction, new_bid, auction_ending_soon}
use sznouns.Bots.Cache.{
  get_auction_cache, get_bid_cache, get_auction_ending_soon_cache, update_auction_cache,
  update_bid_cache, update_auction_ending_soon_cache,
}
use sznouns.Bots.Cache.Laws.{Agree}

-- `cached < id`, which NaN is not.
abbrev pub lt_number : Option ℕ → ℕ → Bool
lt_number none n = false
lt_number (some m) n = ltb m n

abbrev pub build_counter_name : Text → Text
build_counter_name name = codes "bots_" ++ name

module _ (r : Redis) where
  open r use {Store}

  -- An `IAuctionLifecycleHandler`: what a call writes to the store, and whether it resolves. A handler
  -- keeps the bot's own keys.
  pub record Handler : Type 0 where
    pub handle : Notice → Store → Store × Bool
    pub handle-Agree : (n : Notice) (s : Store) → Agree r s (handle n s).0

  -- What the handlers have been told, the latest notice first.
  pub record World : Type 0 where
    pub store : Store
    pub told : List Notice

  -- What a tick meets: the time in seconds (below 2^31, where `~~` keeps it), the counters whose post
  -- succeeds, the configured handlers.
  pub record Env : Type 0 where
    pub now : ℕ
    pub counter : Text → Bool
    pub handlers : List Handler

  abbrev pub Action : Type 0
  Action = World → World × Bool

  infixr 6 ◌>>◌
  abbrev pub ◌>>◌ : Action → Action → Action
  ◌>>◌ m k w = if (m w).1 then k (m w).0 else ((m w).0, false)

  abbrev pub skip : Action
  skip w = (w, true)

  abbrev pub write : (Store → Store) → Action
  write f w = (record w { store = f w.store }, true)

  abbrev pub increment_counter : Env → Text → Action
  increment_counter env name w = (w, env.counter (build_counter_name name))

  -- `Promise.all` of the handlers: each is called, and one rejection rejects.
  unfoldable pub tell : List Handler → Notice → Store → Store × Bool
  tell [] n s = (s, true)
  tell (h ∷ handlers) n s =
      let first = h.handle n s in let rest = tell handlers n first.0 in (rest.0, first.1 && rest.1)

  abbrev pub notify : Env → Notice → Action
  notify env n w =
      let (s, ok) = tell env.handlers n w.store in (record { store = s; told = n ∷ w.told }, ok)

  unfoldable pub setup_auction : AuctionBids → Action
  setup_auction last = write (update_auction_cache r last.id)

  unfoldable pub announce_auction : Env → AuctionBids → Option ℕ → Action
  announce_auction env last cached_auction_id =
      if lt_number cached_auction_id last.id
      then increment_counter env (codes "auctions_discovered")
        >> write (update_auction_cache r last.id)
        >> notify env (new_auction last.id)
        >> increment_counter env (codes "auction_cache_updates")
      else skip

  unfoldable pub announce_bid : Env → AuctionBids → List Bid → Text → Action
  announce_bid env last [] cached_bid_id = skip
  announce_bid env last (bid ∷ bids) cached_bid_id =
      if text_eq cached_bid_id bid.id
      then skip
      else write (update_bid_cache r bid.id) >> notify env (new_bid last.id bid)

  unfoldable pub announce_ending_soon : Env → AuctionBids → Option ℕ → Action
  announce_ending_soon env last cached_auction_ending_soon =
      if ltb last.end_time (env.now + 20 * 60) && lt_number cached_auction_ending_soon last.id
      then write (update_auction_ending_soon_cache r last.id)
        >> notify env (auction_ending_soon last.id)
      else skip

  unfoldable pub process_auction_tick : Env → AuctionBids → Action
  process_auction_tick env last w =
      let cached_auction_id = get_auction_cache r w.store in
      let cached_bid_id = get_bid_cache r w.store in
      let cached_auction_ending_soon = get_auction_ending_soon_cache r w.store in
      (announce_auction env last cached_auction_id
          >> increment_counter env (codes "auction_process_last_auction")
          >> announce_bid env last last.bids cached_bid_id
          >> announce_ending_soon env last cached_auction_ending_soon)
        w

  -- One tick after the other, whether the one before resolved or not.
  unfoldable pub process_auction_ticks : List (Env × AuctionBids) → World → World
  process_auction_ticks [] w = w
  process_auction_ticks ((env, last) ∷ ticks) w =
      process_auction_ticks ticks (process_auction_tick env last w).0
