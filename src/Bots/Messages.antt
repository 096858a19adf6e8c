-- ===== src/Bots/Messages.antt =====
-- The texts that the bot sends (packages/nouns-bots/src/utils.ts). Twitter, Discord, the ENS registry, and
-- the image of a noun are not part of the repository. `none` from them is a rejected call.
use sznouns.Prelude.{
  ℕ, ◌-◌, Bool, Option, none, some, [], ◌∷◌, ◌++◌, if◌then◌else◌, length, take, drop, Text, codes,
  ◌==◌,
}
use sznouns.Bots.{
  Bid, Vote, Proposal, ProposalStatus, active, cancelled, executed, pending, queued, vetoed,
}
use sznouns.Prelude.Decimal.{to_decimal}
use sznouns.Bots.Proposals.{extract_proposal_title}

-- What the handlers call.
pub record Services : Type 0 where
  -- `getNounPngBuffer`: an image, undefined (`some none`), or an exception.
  pub noun_png : Text → Option (Option Text)
  -- `lookupAddress`: a name, null (`some none`), or an exception.
  pub lookup_address : Text → Option (Option Text)
  pub format_ether : Text → Text
  pub upload_media : Text → Option Text
  -- A tweet with an image, and a reply; each gives the tweet's `id_str`.
  pub tweet : Text → Text → Option Text
  pub reply : Text → Text → Option Text
  -- A webhook's `send` of a message: its title, its description and an attached image.
  pub send : ℕ → Text → Text → Option Text → Bool

-- Of an address, which has more than 4 characters.
abbrev pub short_address : Text → Text
short_address address = take 4 address ++ (codes "..." ++ drop (length address - 4) address)

abbrev pub status_text : ProposalStatus → Text
status_text active = codes "active"
status_text cancelled = codes "cancelled"
status_text executed = codes "executed"
status_text pending = codes "pending"
status_text queued = codes "queued"
status_text vetoed = codes "vetoed"

-- Any other number has no text.
abbrev pub vote_direction_to_text : ℕ → Text
vote_direction_to_text direction =
    if direction == 0
    then codes "against"
    else if direction == 1
    then codes "for"
    else if direction == 2
    then codes "to abstain on"
    else codes "undefined"

abbrev pub or_short : Text → Option Text → Text
or_short address none = short_address address
or_short address (some []) = short_address address
or_short address (some (c ∷ name)) = c ∷ name

abbrev pub reason_text : Option Text → Text
reason_text none = []
reason_text (some []) = []
reason_text (some (c ∷ reason)) = 10 ∷ 10 ∷ codes "Reason: " ++ c ∷ reason

abbrev pub map_option {ℓ κ} : {A : Type ℓ} {B : Type κ} → (A → B) → Option A → Option B
map_option f none = none
map_option f (some a) = some (f a)

abbrev pub format_new_governance_proposal_text : Proposal → Text
format_new_governance_proposal_text p =
    codes "A new NounsDAO proposal (#"
    ++ (to_decimal p.id ++ (codes ") has been created: " ++ extract_proposal_title p))

abbrev pub format_updated_governance_proposal_status_text : Proposal → Text
format_updated_governance_proposal_status_text p =
    codes "Nouns DAO proposal #"
    ++ (to_decimal p.id
        ++ (codes " ("
            ++ (extract_proposal_title p
                ++ (codes ") has changed to status: " ++ status_text p.status))))

abbrev pub format_proposal_at_risk_of_expiry_text : Proposal → Text
format_proposal_at_risk_of_expiry_text p =
    codes "Nouns DAO proposal #"
    ++ (to_decimal p.id
        ++ (codes " ("
            ++ (extract_proposal_title p
                ++ codes ") expires in less than two days. Please execute it immediately!")))

abbrev pub format_auction_started_tweet_text : ℕ → Text
format_auction_started_tweet_text auction_id =
    (0xff0a ∷ codes "Bleep Bloop Blop")
    ++ (0xff0a ∷ 10 ∷ codes "        "
        ++ (10 ∷ codes " An auction has started for Noun #"
            ++ (to_decimal auction_id ++ (10 ∷ codes " Learn more at https://nouns.wtf"))))

abbrev pub get_auction_ending_soon_tweet_text : Text
get_auction_ending_soon_tweet_text =
    codes "This auction is ending soon! Bid now at https://nouns.wtf"

module _ (c : Services) where
  open c use {noun_png, lookup_address, format_ether, upload_media, tweet, reply, send}

  abbrev pub resolve_ens_or_format_address : Text → Option Text
  resolve_ens_or_format_address address = map_option (or_short address) (lookup_address address)

  abbrev pub format_bid_message_text : ℕ → Bid → Option Text
  format_bid_message_text id bid =
      map_option
        (λ bidder.
          codes "Noun "
          ++ (to_decimal id
              ++ (codes " has received a bid of "
                  ++ (0x39e ∷ format_ether bid.amount ++ (codes " from " ++ bidder)))))
        (resolve_ens_or_format_address bid.bidder)

  abbrev pub format_new_governance_vote_text : Proposal → Vote → Option Text
  format_new_governance_vote_text p vote =
      map_option
        (λ voter.
          voter
          ++ (codes " has voted "
              ++ (vote_direction_to_text vote.support_detailed
                  ++ (codes " Proposal #"
                      ++ (to_decimal p.id
                          ++ (codes " ("
                              ++ (extract_proposal_title p
                                  ++ (codes ")" ++ reason_text vote.reason))))))))
        (resolve_ens_or_format_address vote.voter)
