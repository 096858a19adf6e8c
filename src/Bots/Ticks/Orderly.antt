-- ===== src/Bots/Ticks/Orderly.antt =====
-- What every action of the auction loop of packages/nouns-bots/src/index.ts keeps: the caches are the
-- latest notices, and no notice is repeated.
use sznouns.Prelude.{
  ℕ, ◌<◌, ◌≡◌, ◌≢◌, refl, sym, ap, ◌∙◌, true, false, some, List, [], ◌∷◌, ltb→lt, Text, text_eq,
  text_eq_iff,
}
use sznouns.Bots.{Redis, Bid, Notice, new_auction, new_bid, auction_ending_soon}
use sznouns.Bots.Cache.{
  get_auction_cache, get_bid_cache, get_auction_ending_soon_cache, update_auction_cache,
  update_bid_cache, update_auction_ending_soon_cache,
}
use sznouns.Bots.Cache.Laws
use sznouns.Bots.Cache.Laws.{Agree}
use sznouns.Bots.Ticks.{lt_number, Handler, World, Env, tell}

-- The auctions and the bids in notices.
abbrev pub auctions_of : List Notice → List ℕ
auctions_of [] = []
auctions_of (new_auction id ∷ ns) = id ∷ auctions_of ns
auctions_of (_ ∷ ns) = auctions_of ns

abbrev pub endings_of : List Notice → List ℕ
endings_of [] = []
endings_of (auction_ending_soon id ∷ ns) = id ∷ endings_of ns
endings_of (_ ∷ ns) = endings_of ns

abbrev pub bids_of : List Notice → List Text
bids_of [] = []
bids_of (new_bid id bid ∷ ns) = bid.id ∷ bids_of ns
bids_of (_ ∷ ns) = bids_of ns

-- The first of a list, or what there was before.
abbrev pub latest {ℓ} : {A : Type ℓ} → A → List A → A
latest a [] = a
latest a (x ∷ xs) = x

-- Each is above the next one, and the last above the start.
abbrev pub IsDescending : ℕ → List ℕ → Type 0
IsDescending start [] = Unit {0}
IsDescending start (x ∷ xs) = (latest start xs < x) × IsDescending start xs

-- Each differs from the next one, and the last from the start.
abbrev pub IsChanging : Text → List Text → Type 0
IsChanging start [] = Unit {0}
IsChanging start (x ∷ xs) = (latest start xs ≢ x) × IsChanging start xs

module _ (r : Redis) where
  open r use {Store}

  -- From caches `auction`, `bid` and `ending`.
  pub record IsOrderly (auction : ℕ) (bid : Text) (ending : ℕ) (w : World r) : Type 0 where
    pub auction_cached : get_auction_cache r w.store ≡ some (latest auction (auctions_of w.told))
    pub auctions : IsDescending auction (auctions_of w.told)
    pub bid_cached : get_bid_cache r w.store ≡ latest bid (bids_of w.told)
    pub bids : IsChanging bid (bids_of w.told)
    pub ending_cached :
        get_auction_ending_soon_cache r w.store ≡ some (latest ending (endings_of w.told))
    pub endings : IsDescending ending (endings_of w.told)

  pub tell-Agree :
      (handlers : List (Handler r)) (n : Notice) (s : Store) → Agree r s (tell r handlers n s).0
  unfolding tell
  tell-Agree [] n s key apart = refl
  tell-Agree (h ∷ handlers) n s key apart =
      tell-Agree handlers n (h.handle n s).0 key apart ∙ h.handle-Agree n s key apart

  -- The world after a write and its notice.
  abbrev pub told : Env r → (Store → Store) → Notice → World r → World r
  told env f n w = record { store = (tell r env.handlers n (f w.store)).0; told = n ∷ w.told }

  module _ (auction : ℕ) (bid : Text) (ending : ℕ) where
    abbrev pub Orderly : World r → Type 0
    Orderly = IsOrderly auction bid ending

    pub told-auction-IsOrderly :
        (env : Env r) (id : ℕ) (w : World r)
        → Orderly w
        → lt_number (get_auction_cache r w.store) id ≡ true
        → Orderly (told env (update_auction_cache r id) (new_auction id) w)
    told-auction-IsOrderly env id w o lt =
        let s = update_auction_cache r id w.store in
        let agree = tell-Agree env.handlers (new_auction id) s in
        let s' = (tell r env.handlers (new_auction id) s).0 in
        let above =
          ltb→lt (latest auction (auctions_of w.told)) id
            (ap (λ c. lt_number c id) (sym o.auction_cached) ∙ lt) in
        record {
          auction_cached =
              Laws.get_auction_cache-Agree r s s' agree
              ∙ Laws.get_auction_cache-update_auction_cache r id w.store;
          auctions = (above, o.auctions);
          bid_cached =
              Laws.get_bid_cache-Agree r s s' agree
              ∙ (Laws.get_bid_cache-update_auction_cache r id w.store ∙ o.bid_cached);
          bids = o.bids;
          ending_cached =
              Laws.get_auction_ending_soon_cache-Agree r s s' agree
              ∙ (Laws.get_auction_ending_soon_cache-update_auction_cache r id w.store
                  ∙ o.ending_cached);
          endings = o.endings;
        }

    pub told-bid-IsOrderly :
        (env : Env r) (id : ℕ) (b : Bid) (w : World r)
        → Orderly w
        → text_eq (get_bid_cache r w.store) b.id ≡ false
        → Orderly (told env (update_bid_cache r b.id) (new_bid id b) w)
    told-bid-IsOrderly env id b w o ne =
        let s = update_bid_cache r b.id w.store in
        let agree = tell-Agree env.handlers (new_bid id b) s in
        let s' = (tell r env.handlers (new_bid id b) s).0 in
        let apart : latest bid (bids_of w.told) ≢ b.id = λ e.
          let same : text_eq (get_bid_cache r w.store) b.id ≡ true =
            (text_eq_iff (get_bid_cache r w.store) b.id).1 (o.bid_cached ∙ e) in
          cc in
        record {
          auction_cached =
              Laws.get_auction_cache-Agree r s s' agree
              ∙ (Laws.get_auction_cache-update_bid_cache r b.id w.store ∙ o.auction_cached);
          auctions = o.auctions;
          bid_cached =
              Laws.get_bid_cache-Agree r s s' agree
              ∙ Laws.get_bid_cache-update_bid_cache r b.id w.store;
          bids = (apart, o.bids);
          ending_cached =
              Laws.get_auction_ending_soon_cache-Agree r s s' agree
              ∙ (Laws.get_auction_ending_soon_cache-update_bid_cache r b.id w.store
                  ∙ o.ending_cached);
          endings = o.endings;
        }

    pub told-ending-IsOrderly :
        (env : Env r) (id : ℕ) (w : World r)
        → Orderly w
        → lt_number (get_auction_ending_soon_cache r w.store) id ≡ true
        → Orderly (told env (update_auction_ending_soon_cache r id) (auction_ending_soon id) w)
    told-ending-IsOrderly env id w o lt =
        let s = update_auction_ending_soon_cache r id w.store in
        let agree = tell-Agree env.handlers (auction_ending_soon id) s in
        let s' = (tell r env.handlers (auction_ending_soon id) s).0 in
        let above =
          ltb→lt (latest ending (endings_of w.told)) id
            (ap (λ c. lt_number c id) (sym o.ending_cached) ∙ lt) in
        record {
          auction_cached =
              Laws.get_auction_cache-Agree r s s' agree
              ∙ (Laws.get_auction_cache-update_auction_ending_soon_cache r id w.store
                  ∙ o.auction_cached);
          auctions = o.auctions;
          bid_cached =
              Laws.get_bid_cache-Agree r s s' agree
              ∙ (Laws.get_bid_cache-update_auction_ending_soon_cache r id w.store ∙ o.bid_cached);
          bids = o.bids;
          ending_cached =
              Laws.get_auction_ending_soon_cache-Agree r s s' agree
              ∙ Laws.get_auction_ending_soon_cache-update_auction_ending_soon_cache r id w.store;
          endings = (above, o.endings);
        }
