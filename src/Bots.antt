-- ===== src/Bots.antt =====
-- nouns-bots: what the bot keeps and tells (packages/nouns-bots/src/types.ts), and the Redis store that it
-- keeps it in, which is not part of the repository.
pub mod Cache
pub mod Ticks
pub mod Proposals
pub mod Governance
pub mod Messages
pub mod Handlers
mod Tests
use sznouns.Prelude.{
  ℕ, ◌≡◌, Bool, true, false, Option, none, some, List, ◌∷◌, if◌then◌else◌, Text, text_eq,
}

pub record Bid : Type 0 where
  pub id : Text
  pub amount : Text
  pub bidder : Text

pub record AuctionBids : Type 0 where
  pub id : ℕ
  pub end_time : ℕ
  pub bids : List Bid

pub record Vote : Type 0 where
  pub id : Text
  pub voter : Text
  pub votes : ℕ
  pub support_detailed : ℕ
  pub reason : Option Text

pub data ProposalStatus : Type 0 where
  active : ProposalStatus
  cancelled : ProposalStatus
  executed : ProposalStatus
  pending : ProposalStatus
  queued : ProposalStatus
  vetoed : ProposalStatus

pub record Proposal : Type 0 where
  pub id : ℕ
  pub proposer : Text
  pub description : Text
  pub status : ProposalStatus
  pub quorum_votes : ℕ
  pub proposal_threshold : ℕ
  pub start_block : ℕ
  pub end_block : ℕ
  pub execution_eta : ℕ
  pub votes : List Vote

-- A call of a method of `IAuctionLifecycleHandler`.
pub data Notice : Type 0 where
  new_auction : ℕ → Notice
  new_bid : ℕ → Bid → Notice
  auction_ending_soon : ℕ → Notice
  new_proposal : Proposal → Notice
  updated_proposal_status : Proposal → Notice
  proposal_at_risk_of_expiry : Proposal → Notice
  governance_vote : Proposal → Vote → Notice

abbrev pub is_some {ℓ} : {A : Type ℓ} → Option A → Bool
is_some none = false
is_some (some a) = true

-- The commands of Redis that the bot uses, and `JSON` for its proposals.
pub record Redis : Type 1 where
  pub Store : Type 0
  pub get : Text → Store → Option Text
  pub set : Text → Text → Store → Store
  pub exists : Text → Store → Bool
  pub get_set :
      (key value other : Text) (s : Store)
      → get other (set key value s) ≡ (if text_eq key other then some value else get other s)
  pub exists_get : (key : Text) (s : Store) → exists key s ≡ is_some (get key s)
  pub stringify : Proposal → Text
  pub stringify_cons : (p : Proposal) → (c : ℕ) × (t : Text) × (stringify p ≡ c ∷ t)
  pub parse : Text → Option Proposal
  pub parse_stringify : (p : Proposal) → parse (stringify p) ≡ some p
