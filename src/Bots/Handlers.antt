-- ===== src/Bots/Handlers.antt =====
-- The handlers of notices (packages/nouns-bots/src/handlers/twitter.ts, handlers/discord.ts). A handler
-- gives the store after a call and whether the call resolved.
use sznouns.Prelude.{
  ℕ, refl, ◌∙◌, Bool, true, false, ◌&&◌, Option, none, some, List, [], ◌∷◌, ◌++◌, if◌then◌else◌,
  Text, codes,
}
use sznouns.Bots.{
  Redis, Notice, new_auction, new_bid, auction_ending_soon, new_proposal, updated_proposal_status,
  proposal_at_risk_of_expiry, governance_vote,
}
use sznouns.Prelude.Decimal.{to_decimal}
use sznouns.Bots.Cache.{
  reply_tweet_id_key, get_auction_reply_tweet_id, update_auction_reply_tweet_id,
}
use sznouns.Bots.Cache.Laws.{Agree}
use sznouns.Bots.Ticks.{Handler}
use sznouns.Bots.Messages.{
  Services, format_new_governance_proposal_text, format_updated_governance_proposal_status_text,
  format_proposal_at_risk_of_expiry_text, format_auction_started_tweet_text,
  get_auction_ending_soon_tweet_text, format_bid_message_text, format_new_governance_vote_text,
}

module _ (c : Services) where
  open c use {noun_png, upload_media, tweet, reply, send}

  -- `Promise.all` of the clients' `send`.
  abbrev pub send_all : List ℕ → Text → Text → Option Text → Bool
  send_all [] title description png = true
  send_all (client ∷ clients) title description png =
      send client title description png && send_all clients title description png

  abbrev pub send_text : List ℕ → Text → Option Text → Bool
  send_text clients title none = false
  send_text clients title (some description) = send_all clients title description none

  -- `DiscordAuctionLifecycleHandler`, which has no method for an auction that ends soon.
  unfoldable pub discord_accepts : List ℕ → Notice → Bool
  discord_accepts clients (new_auction id) = elim (noun_png (to_decimal id)) [
    | none ↦ false
    | some none ↦ true
    | some (some png) ↦
        send_all clients (codes "New Auction Discovered")
          (codes "An auction has started for Noun #" ++ to_decimal id) (some png)
  ]
  discord_accepts clients (new_bid id bid) =
      send_text clients (codes "New Bid Placed") (format_bid_message_text c id bid)
  discord_accepts clients (auction_ending_soon id) = true
  discord_accepts clients (new_proposal p) =
      send_text clients (codes "New Governance Proposal")
        (some (format_new_governance_proposal_text p))
  discord_accepts clients (updated_proposal_status p) =
      send_text clients (codes "Proposal Status Update")
        (some (format_updated_governance_proposal_status_text p))
  discord_accepts clients (proposal_at_risk_of_expiry p) =
      send_text clients (codes "Proposal At-Risk of Expiry")
        (some (format_proposal_at_risk_of_expiry_text p))
  discord_accepts clients (governance_vote p vote) =
      send_text clients (codes "New Proposal Vote") (format_new_governance_vote_text c p vote)

  module _ (r : Redis) where
    open r use {Store, get_set}

    -- The store after a tweet, whose id is the next to reply to.
    abbrev pub after_tweet : Option Text → Store → Store × Bool
    after_tweet none s = (s, false)
    after_tweet (some id) s = (update_auction_reply_tweet_id r id s, true)

    abbrev pub tweet_png : Text → Option Text → Store → Store × Bool
    tweet_png text none s = (s, false)
    tweet_png text (some media_id) s = after_tweet (tweet text media_id) s

    -- A missing or empty id to reply to ends the method.
    abbrev pub reply_to : Option Text → Option Text → Store → Store × Bool
    reply_to none text s = (s, true)
    reply_to (some []) text s = (s, true)
    reply_to (some (d ∷ id)) none s = (s, false)
    reply_to (some (d ∷ id)) (some text) s = after_tweet (reply text (d ∷ id)) s

    -- `TwitterAuctionLifecycleHandler`, which has no methods for proposals.
    unfoldable pub twitter_handle : Notice → Store → Store × Bool
    twitter_handle (new_auction id) s = elim (noun_png (to_decimal id)) [
      | none ↦ (s, false)
      | some none ↦ (s, true)
      | some (some png) ↦ tweet_png (format_auction_started_tweet_text id) (upload_media png) s
    ]
    twitter_handle (new_bid id bid) s =
        reply_to (get_auction_reply_tweet_id r s) (format_bid_message_text c id bid) s
    twitter_handle (auction_ending_soon id) s =
        reply_to (get_auction_reply_tweet_id r s) (some get_auction_ending_soon_tweet_text) s
    twitter_handle _ s = (s, true)

    after_tweet-Agree : (id : Option Text) (s : Store) → Agree r s (after_tweet id s).0
    unfolding update_auction_reply_tweet_id
    after_tweet-Agree none s key apart = refl
    after_tweet-Agree (some id) s key apart = get_set reply_tweet_id_key id key s ∙ rw apart refl

    tweet_png-Agree :
        (text : Text) (media_id : Option Text) (s : Store) → Agree r s (tweet_png text media_id s).0
    tweet_png-Agree text none s key apart = refl
    tweet_png-Agree text (some media_id) s key apart =
        after_tweet-Agree (tweet text media_id) s key apart

    reply_to-Agree : (to text : Option Text) (s : Store) → Agree r s (reply_to to text s).0
    reply_to-Agree none text s key apart = refl
    reply_to-Agree (some []) text s key apart = refl
    reply_to-Agree (some (d ∷ id)) none s key apart = refl
    reply_to-Agree (some (d ∷ id)) (some text) s key apart =
        after_tweet-Agree (reply text (d ∷ id)) s key apart

    -- Whatever Twitter answers, a call writes to no key but that of the tweet to reply to.
    pub twitter_handle-Agree : (n : Notice) (s : Store) → Agree r s (twitter_handle n s).0
    unfolding twitter_handle
    twitter_handle-Agree (new_auction id) s =
        elim (noun_png (to_decimal id))
          as (λ image. Agree r s (
            let o : Store × Bool = elim image [
              | none ↦ (s, false)
              | some none ↦ (s, true)
              | some (some png) ↦
                  tweet_png (format_auction_started_tweet_text id) (upload_media png) s
            ] in
            o.0)) [
              | none ↦ λ key apart. refl
              | some none ↦ λ key apart. refl
              | some (some png) ↦
                  tweet_png-Agree (format_auction_started_tweet_text id) (upload_media png) s
            ]
    twitter_handle-Agree (new_bid id bid) s =
        reply_to-Agree (get_auction_reply_tweet_id r s) (format_bid_message_text c id bid) s
    twitter_handle-Agree (auction_ending_soon id) s =
        reply_to-Agree (get_auction_reply_tweet_id r s) (some get_auction_ending_soon_tweet_text) s
    twitter_handle-Agree (new_proposal p) s = λ key apart. refl
    twitter_handle-Agree (updated_proposal_status p) s = λ key apart. refl
    twitter_handle-Agree (proposal_at_risk_of_expiry p) s = λ key apart. refl
    twitter_handle-Agree (governance_vote p v) s = λ key apart. refl

    abbrev pub twitter_handler : Handler r
    twitter_handler = record { handle = twitter_handle; handle-Agree = twitter_handle-Agree }

    abbrev pub discord_handler : List ℕ → Handler r
    discord_handler clients = record {
      handle = λ n s. (s, discord_accepts clients n);
      handle-Agree = λ n s key apart. refl;
    }

    -- The configured handlers: the internal and the public webhook of Discord are 0 and 1.
    unfoldable pub auction_lifecycle_handlers : Bool → Bool → List (Handler r)
    auction_lifecycle_handlers twitter_enabled discord_enabled =
        (if twitter_enabled then twitter_handler ∷ [] else [])
        ++ (if discord_enabled then discord_handler (0 ∷ 1 ∷ []) ∷ [] else [])
