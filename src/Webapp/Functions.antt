-- ===== src/Webapp/Functions.antt =====
-- The serverless functions (packages/nouns-webapp/functions): theGraph.ts, v0-proposal-votes/index.ts and the
-- views that the others give. The answer of the query, whose numbers are texts, is their argument.
pub mod Grouped
use sznouns.Prelude.{
  ℕ, Bool, true, false, Option, none, some, List, [], ◌∷◌, ◌++◌, map, ◌==◌, if◌then◌else◌, Text,
}

pub record NormalizedVote : Type 0 where
  pub proposal_id : ℕ
  pub support_detailed : ℕ

pub record Seed : Type 0 where
  pub background : ℕ
  pub body : ℕ
  pub accessory : ℕ
  pub head : ℕ
  pub glasses : ℕ

pub record NormalizedNoun : Type 0 where
  pub id : ℕ
  pub owner : Text
  pub delegated_to : Option Text
  pub votes : List NormalizedVote
  pub seed : Seed

-- What the index answers; `Number` reads its texts.
pub record QueriedVote : Type 0 where
  pub proposal : Text
  pub support_detailed : Text

pub record QueriedSeed : Type 0 where
  pub background : Text
  pub body : Text
  pub accessory : Text
  pub head : Text
  pub glasses : Text

pub record QueriedNoun : Type 0 where
  pub id : Text
  pub owner : Text
  pub owner_delegate : Option Text
  pub votes : List QueriedVote
  pub seed : QueriedSeed

module _ (number : Text → ℕ) where
  unfoldable pub normalize_vote : QueriedVote → NormalizedVote
  normalize_vote v = record {
    proposal_id = number v.proposal;
    support_detailed = number v.support_detailed;
  }

  unfoldable pub normalize_seed : QueriedSeed → Seed
  normalize_seed s = record {
    background = number s.background;
    body = number s.body;
    accessory = number s.accessory;
    head = number s.head;
    glasses = number s.glasses;
  }

  unfoldable pub normalize_noun : QueriedNoun → NormalizedNoun
  normalize_noun n = record {
    id = number n.id;
    owner = n.owner;
    delegated_to = n.owner_delegate;
    votes = map normalize_vote n.votes;
    seed = normalize_seed n.seed;
  }

  unfoldable pub normalize_nouns : List QueriedNoun → List NormalizedNoun
  normalize_nouns nouns = map normalize_noun nouns

pub record ProposalVote : Type 0 where
  pub noun_id : ℕ
  pub owner : Text
  pub delegated_to : Option Text
  pub support_detailed : ℕ

-- An object from proposal ids to lists of votes.
abbrev pub ProposalVotes : Type 0
ProposalVotes = ℕ → Option (List ProposalVote)

unfoldable pub built_proposal_vote : NormalizedNoun → NormalizedVote → ProposalVote
built_proposal_vote noun vote = record {
  noun_id = noun.id;
  owner = noun.owner;
  delegated_to = noun.delegated_to;
  support_detailed = vote.support_detailed;
}

abbrev pub or_empty_list : Option (List ProposalVote) → List ProposalVote
or_empty_list none = []
or_empty_list (some votes) = votes

-- One turn of the inner loop: an empty list where there is none, and the vote at its end.
abbrev pub push_vote : NormalizedNoun → NormalizedVote → ProposalVotes → ProposalVotes
push_vote noun vote acc id =
    if vote.proposal_id == id
    then some (or_empty_list (acc id) ++ built_proposal_vote noun vote ∷ [])
    else acc id

abbrev pub push_votes : NormalizedNoun → List NormalizedVote → ProposalVotes → ProposalVotes
push_votes noun [] acc = acc
push_votes noun (vote ∷ votes) acc = push_votes noun votes (push_vote noun vote acc)

abbrev pub reduce_from : List NormalizedNoun → ProposalVotes → ProposalVotes
reduce_from [] acc = acc
reduce_from (noun ∷ nouns) acc = reduce_from nouns (push_votes noun noun.votes acc)

unfoldable pub reduce_proposal_votes : List NormalizedNoun → ProposalVotes
reduce_proposal_votes nouns = reduce_from nouns (λ id. none)

-- The answers for the first noun and for the others.
abbrev pub or_next : Option Bool → Option Bool → Option Bool
or_next (some a) (some b) = some (if a then true else b)
or_next _ _ = none

-- `BigNumber.from` of an address; an invalid one is an exception.
module _ (from_address : Text → Option ℕ) where
  abbrev pub equal_numbers : Option ℕ → Option ℕ → Option Bool
  equal_numbers (some a) (some b) = some (a == b)
  equal_numbers _ _ = none

  unfoldable pub big_numbers_equal : Text → Text → Option Bool
  big_numbers_equal a b = equal_numbers (from_address a) (from_address b)

  -- Whether a filter by a test that may throw leaves a noun.
  abbrev pub leaves_some : (NormalizedNoun → Option Bool) → List NormalizedNoun → Option Bool
  leaves_some test [] = some false
  leaves_some test (noun ∷ nouns) = or_next (test noun) (leaves_some test nouns)

  abbrev pub is_owned_by : Text → NormalizedNoun → Option Bool
  is_owned_by address noun = big_numbers_equal address noun.owner

  abbrev pub is_delegated : Text → Option Text → Option Bool
  is_delegated address none = some false
  is_delegated address (some []) = some false
  is_delegated address (some (c ∷ delegate)) = big_numbers_equal address (c ∷ delegate)

  unfoldable pub is_noun_owner : Text → List NormalizedNoun → Option Bool
  is_noun_owner address nouns = leaves_some (is_owned_by address) nouns

  unfoldable pub is_noun_delegate : Text → List NormalizedNoun → Option Bool
  is_noun_delegate address nouns =
      leaves_some (λ noun. is_delegated address noun.delegated_to) nouns
