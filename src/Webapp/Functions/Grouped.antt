-- ===== src/Webapp/Functions/Grouped.antt =====
-- The votes of packages/nouns-webapp/functions/v0-proposal-votes/index.ts.
use sznouns.Prelude.{
  ℕ, ◌≡◌, refl, sym, ap, ◌∙◌, Option, none, some, List, [], ◌∷◌, ◌++◌, append-nil, append_assoc,
  ◌==◌, if◌then◌else◌, Bool-cases, inl, inr,
}
use sznouns.Webapp.Functions.{
  NormalizedVote, NormalizedNoun, ProposalVote, ProposalVotes, built_proposal_vote, or_empty_list,
  push_vote, push_votes, reduce_from, reduce_proposal_votes,
}

-- The votes of a noun on a proposal.
abbrev pub votes_on : ℕ → NormalizedNoun → List NormalizedVote → List ProposalVote
votes_on id noun [] = []
votes_on id noun (vote ∷ votes) =
    if vote.proposal_id == id
    then built_proposal_vote noun vote ∷ votes_on id noun votes
    else votes_on id noun votes

abbrev pub all_votes_on : ℕ → List NormalizedNoun → List ProposalVote
all_votes_on id [] = []
all_votes_on id (noun ∷ nouns) = votes_on id noun noun.votes ++ all_votes_on id nouns

-- More votes at an entry, which stays missing without one.
abbrev pub with_votes : Option (List ProposalVote) → List ProposalVote → Option (List ProposalVote)
with_votes o [] = o
with_votes o (v ∷ votes) = some (or_empty_list o ++ v ∷ votes)

with_votes-append :
    (o : Option (List ProposalVote)) (xs ys : List ProposalVote)
    → with_votes (with_votes o xs) ys ≡ with_votes o (xs ++ ys)
with_votes-append o [] ys = refl
with_votes-append o (x ∷ xs) [] = ap (λ l. some (or_empty_list o ++ x ∷ l)) (sym (append-nil xs))
with_votes-append o (x ∷ xs) (y ∷ ys) = ap some (append_assoc (or_empty_list o) (x ∷ xs) (y ∷ ys))

push_votes-at :
    (id : ℕ) (noun : NormalizedNoun) (votes : List NormalizedVote) (acc : ProposalVotes)
    → push_votes noun votes acc id ≡ with_votes (acc id) (votes_on id noun votes)
push_votes-at id noun [] acc = refl
push_votes-at id noun (vote ∷ votes) acc =
    push_votes-at id noun votes (push_vote noun vote acc)
    ∙ elim (Bool-cases (vote.proposal_id == id)) [
      | inl t ↦
          rw t (
            with_votes-append (acc id) (built_proposal_vote noun vote ∷ [])
              (votes_on id noun votes))
      | inr f ↦ rw f refl
    ]

reduce_from-at :
    (id : ℕ) (nouns : List NormalizedNoun) (acc : ProposalVotes)
    → reduce_from nouns acc id ≡ with_votes (acc id) (all_votes_on id nouns)
reduce_from-at id [] acc = refl
reduce_from-at id (noun ∷ nouns) acc =
    reduce_from-at id nouns (push_votes noun noun.votes acc)
    ∙ (ap (λ o. with_votes o (all_votes_on id nouns)) (push_votes-at id noun noun.votes acc)
        ∙ with_votes-append (acc id) (votes_on id noun noun.votes) (all_votes_on id nouns))

-- A proposal's entry has the votes on it of all nouns, in the order of the nouns and of their votes, and
-- is missing if there is none.
pub reduce_proposal_votes-eq-with_votes :
    (nouns : List NormalizedNoun) (id : ℕ)
    → reduce_proposal_votes nouns id ≡ with_votes none (all_votes_on id nouns)
unfolding reduce_proposal_votes
reduce_proposal_votes-eq-with_votes nouns id = reduce_from-at id nouns (λ i. none)
