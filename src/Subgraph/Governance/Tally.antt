-- ===== src/Subgraph/Governance/Tally.antt =====
-- What the index says of a proposal after its votes (packages/nouns-subgraph/src/nouns-dao.ts,
-- `handleVoteCast`).
use sznouns.Prelude.{
  ℕ, ◌≡◌, refl, sym, ap, ◌∙◌, Option, none, some, List, [], ◌∷◌, arith, ◌==◌, if◌then◌else◌, Text,
  text_eq, text_eq_iff, Bool-cases, inl, inr, All,
}
use sznouns.Prelude.Int.{ℤ, ◌+ℤ◌}
use sznouns.Subgraph.Graph.{Graph, IsKeyed, save-IsKeyed}
use sznouns.Subgraph.Entities.{Proposal, Store, Status, active, delegate_not_found_on_vote}
use sznouns.Subgraph.Helpers.{get_or_create_delegate, get_or_create_vote, save_vote, save_proposal}
use sznouns.Subgraph.Helpers.Stored.{get_or_create_proposal_stored}
use sznouns.Subgraph.Auctions.{log_error}
use sznouns.Subgraph.Governance.{
  VoteCast, handle_vote_cast, is_pending, ◌>>=◌, add_votes, activate, cast_vote, vote_id,
  log_unless_delegate,
}

-- The counts and the status of a proposal.
pub record Tally : Type 0 where
  pub against : ℤ
  pub favour : ℤ
  pub abstain : ℤ
  pub status : Status

-- A proposal of the index with all of them.
abbrev pub with_tally : Tally → Proposal → Proposal
with_tally t p = record p {
  against_votes = some t.against;
  for_votes = some t.favour;
  abstain_votes = some t.abstain;
  status = some t.status;
}

-- What one vote means: its weight goes to the side that it names, and voting has begun.
unfoldable pub count_vote : ℕ → ℤ → Tally → Tally
count_vote support votes t = record t {
  against = if support == 0 then t.against +ℤ votes else t.against;
  favour = if support == 1 then t.favour +ℤ votes else t.favour;
  abstain = if support == 2 then t.abstain +ℤ votes else t.abstain;
  status = if is_pending t.status then active else t.status;
}

add_votes-with_tally :
    (support : ℕ) (votes : ℤ) (p : Proposal) (t : Tally)
    → (add_votes support votes (with_tally t p) >>= activate)
      ≡ some (with_tally (count_vote support votes t) p)
unfolding count_vote
add_votes-with_tally support votes p t = ground arith

bind_assoc {ℓ} :
    {A B C : Type ℓ} (m : Option A) (f : A → Option B) (h : B → Option C)
    → ((m >>= f) >>= h) ≡ (m >>= (λ a. f a >>= h))
bind_assoc none f h = refl
bind_assoc (some a) f h = refl

module _ (g : Graph) where
  open g use {load, save, load_save, to_string, to_hex_string}

  abbrev pub proposal_key : VoteCast → Text
  proposal_key e = to_string e.proposal_id

  -- `handleVoteCast` up to the counting of the votes, for a proposal that is stored.
  abbrev cast : VoteCast → Proposal → Store g → Store g
  cast e p s =
      let voter_id = to_hex_string e.voter in
      let s2 =
        log_unless_delegate g (load voter_id s.delegates)
          (log_error g (delegate_not_found_on_vote voter_id)) s in
      let (s3, voter) = get_or_create_delegate g voter_id s2 in
      save_vote g (cast_vote e p voter (get_or_create_vote g (vote_id g e) s)) s3

  proposals-get_or_create_delegate :
      (id : Text) (s : Store g) → (get_or_create_delegate g id s).0.proposals ≡ s.proposals
  unfolding get_or_create_delegate
  proposals-get_or_create_delegate id s = ground arith

  proposals-cast :
      (e : VoteCast) (p : Proposal) (s : Store g) → (cast e p s).proposals ≡ s.proposals
  proposals-cast e p s =
      let voter_id = to_hex_string e.voter in
      let s2 =
        log_unless_delegate g (load voter_id s.delegates)
          (log_error g (delegate_not_found_on_vote voter_id)) s in
      proposals-get_or_create_delegate voter_id s2 ∙ ground arith

  handle_vote_cast_stored :
      (e : VoteCast) (s : Store g) (p : Proposal) (t : Tally)
      → load (proposal_key e) s.proposals ≡ some (with_tally t p)
      → handle_vote_cast g e s
        ≡ some (
            save_proposal g
              (with_tally (count_vote e.support e.votes t) p)
              (cast e (with_tally t p) s))
  unfolding handle_vote_cast
  handle_vote_cast_stored e s p t h =
      rw (get_or_create_proposal_stored g (proposal_key e) s (with_tally t p) h) (
        sym (
          bind_assoc (add_votes e.support e.votes (with_tally t p)) activate
            (λ o. some (save_proposal g o (cast e (with_tally t p) s))))
        ∙ ap (λ q. q >>= (λ o. some (save_proposal g o (cast e (with_tally t p) s))))
            (add_votes-with_tally e.support e.votes p t))

  -- The vote's proposal is stored, with its tally.
  abbrev pub HasProposal : Store g → VoteCast → Type 0
  HasProposal s e =
      (p : Proposal) × (t : Tally) × (load (proposal_key e) s.proposals ≡ some (with_tally t p))

  -- What one vote means for the proposal with this id.
  unfoldable pub count_for : Text → VoteCast → Tally → Tally
  count_for id e t = if text_eq (proposal_key e) id then count_vote e.support e.votes t else t

  unfoldable pub count_all : Text → List VoteCast → Tally → Tally
  count_all id [] t = t
  count_all id (e ∷ es) t = count_all id es (count_for id e t)

  -- `handleVoteCast` for one vote after the other.
  unfoldable pub handle_votes : List VoteCast → Store g → Option (Store g)
  handle_votes [] s = some s
  handle_votes (e ∷ es) s = handle_vote_cast g e s >>= handle_votes es

  -- The store after a vote on the proposal `with_tally u q`.
  abbrev voted : VoteCast → Proposal → Tally → Store g → Store g
  voted e q u s =
      save_proposal g (with_tally (count_vote e.support e.votes u) q) (cast e (with_tally u q) s)

  voted-load :
      (e : VoteCast) (s : Store g) (q : Proposal) (u : Tally) (id : Text) (p : Proposal) (t : Tally)
      → IsKeyed g (λ (r : Proposal). r.id) s.proposals
      → load (proposal_key e) s.proposals ≡ some (with_tally u q)
      → load id s.proposals ≡ some (with_tally t p)
      → load id (voted e q u s).proposals ≡ some (with_tally (count_for id e t) p)
  unfolding count_for
  voted-load e s q u id p t h found there =
      let after = with_tally (count_vote e.support e.votes u) q in
      let table = (cast e (with_tally u q) s).proposals in
      let kept = proposals-cast e (with_tally u q) s in
      let own : q.id ≡ proposal_key e = h.own_id (proposal_key e) (with_tally u q) found in
      let at = load_save q.id id after table in
      elim (Bool-cases (text_eq (proposal_key e) id)) [
        | inl this ↦
            let key : proposal_key e ≡ id = (text_eq_iff (proposal_key e) id).0 this in
            let same : some (with_tally u q) ≡ some (with_tally t p) =
              sym found ∙ (ap (λ k. load k s.proposals) key ∙ there) in
            let counted : some after ≡ some (with_tally (count_vote e.support e.votes t) p) =
              sym (add_votes-with_tally e.support e.votes q u)
              ∙ (ap (λ o. o >>= (λ x. add_votes e.support e.votes x >>= activate)) same
                  ∙ add_votes-with_tally e.support e.votes p t) in
            rw (this) (at ∙ rw (ap (λ k. text_eq k id) own ∙ this) counted)
        | inr other ↦ rw (other) (at ∙ rw (ap (λ k. text_eq k id) own ∙ other) (rw (kept) there))
      ]

  voted-IsKeyed :
      (e : VoteCast) (s : Store g) (q : Proposal) (u : Tally)
      → IsKeyed g (λ (r : Proposal). r.id) s.proposals
      → IsKeyed g (λ (r : Proposal). r.id) (voted e q u s).proposals
  voted-IsKeyed e s q u h =
      save-IsKeyed g (λ r. r.id) q.id (with_tally (count_vote e.support e.votes u) q)
        (cast e (with_tally u q) s).proposals refl (rw (proposals-cast e (with_tally u q) s) h)

  abbrev pub HasProposals : Store g → List VoteCast → Type 0
  HasProposals s es = All (HasProposal s) es

  voted-HasProposals :
      (e : VoteCast) (s : Store g) (q : Proposal) (u : Tally) (es : List VoteCast)
      → IsKeyed g (λ (r : Proposal). r.id) s.proposals
      → load (proposal_key e) s.proposals ≡ some (with_tally u q)
      → HasProposals s es
      → HasProposals (voted e q u s) es
  voted-HasProposals e s q u [] h found all = all
  voted-HasProposals e s q u (v ∷ es) h found ((p, t, there), all) = (
    (p, count_for (proposal_key v) e t, voted-load e s q u (proposal_key v) p t h found there),
    voted-HasProposals e s q u es h found all,
  )

  -- If every proposal is stored under its id, and those that are voted on are stored with their
  -- counts and a status, then every vote is counted without a trap; afterwards a stored proposal has
  -- on each side the weight of the votes for that side in its own votes added, it is active if it
  -- was pending and had a vote, and nothing else in it changed.
  pub handle_votes-load :
      (es : List VoteCast) (s : Store g) (id : Text) (p : Proposal) (t : Tally)
      → IsKeyed g (λ (r : Proposal). r.id) s.proposals
      → HasProposals s es
      → load id s.proposals ≡ some (with_tally t p)
      → (s' : Store g) × (handle_votes es s ≡ some s')
        × (load id s'.proposals ≡ some (with_tally (count_all id es t) p))
  unfolding handle_votes count_all
  handle_votes-load [] s id p t h all there = (s, refl, there)
  handle_votes-load (e ∷ es) s id p t h ((q, u, found), all) there =
      let (s', run, last) =
        handle_votes-load es (voted e q u s) id p (count_for id e t) (voted-IsKeyed e s q u h)
          (voted-HasProposals e s q u es h found all) (voted-load e s q u id p t h found there) in
      (s', rw (handle_vote_cast_stored e s q u found) run, last)
