-- ===== src/Bots/Tests/Codec.antt =====
-- A store of texts under keys, and a text for each proposal, as packages/nouns-bots/src/cache.ts needs them.
use sznouns.Prelude.{
  ℕ, zero, suc, ◌≡◌, refl, ap, Option, none, some, List, [], ◌∷◌, length, if◌then◌else◌, Text,
  text_eq,
}
use sznouns.Prelude.Codec.{put, read, after, read-put, after_put}
use sznouns.Bots.{
  Redis, Proposal, ProposalStatus, active, cancelled, executed, pending, queued, vetoed, Vote,
  is_some,
}

abbrev put_reason : Option Text → Text → Text
put_reason none rest = 0 ∷ rest
put_reason (some t) rest = 1 ∷ put t rest

abbrev read_reason : Text → Option Text
read_reason [] = none
read_reason (zero ∷ t) = none
read_reason (suc k ∷ t) = some (read t)

abbrev after_reason : Text → Text
after_reason [] = []
after_reason (zero ∷ t) = t
after_reason (suc k ∷ t) = after t

abbrev put_votes : List Vote → Text
put_votes [] = []
put_votes (v ∷ vs) =
    v.votes ∷ v.support_detailed ∷ put v.id (put v.voter (put_reason v.reason (put_votes vs)))

abbrev read_votes : ℕ → Text → List Vote
read_votes zero t = []
read_votes (suc n) (votes ∷ support ∷ t) =
    record {
      id = read t;
      voter = read (after t);
      votes = votes;
      support_detailed = support;
      reason = read_reason (after (after t));
    }
    ∷ read_votes n (after_reason (after (after t)))
read_votes (suc n) _ = []

reason_put : (o : Option Text) (rest : Text) → read_reason (put_reason o rest) ≡ o
reason_put none rest = refl
reason_put (some t) rest = ap some (read-put t rest)

after_reason_put : (o : Option Text) (rest : Text) → after_reason (put_reason o rest) ≡ rest
after_reason_put none rest = refl
after_reason_put (some t) rest = after_put t rest

read_votes_put : (vs : List Vote) → read_votes (length vs) (put_votes vs) ≡ vs
read_votes_put [] = refl
read_votes_put (v ∷ vs) =
    let reason = put_reason v.reason (put_votes vs) in
    let voter = put v.voter reason in
    rw
      (
        read-put v.id voter,
        after_put v.id voter,
        read-put v.voter reason,
        after_put v.voter reason,
        reason_put v.reason (put_votes vs),
        after_reason_put v.reason (put_votes vs),
        read_votes_put vs,
      )
      refl

abbrev code_of : ProposalStatus → ℕ
code_of active = 0
code_of cancelled = 1
code_of executed = 2
code_of pending = 3
code_of queued = 4
code_of vetoed = 5

abbrev status_of : ℕ → ProposalStatus
status_of zero = active
status_of (suc zero) = cancelled
status_of (suc (suc zero)) = executed
status_of (suc (suc (suc zero))) = pending
status_of (suc (suc (suc (suc zero)))) = queued
status_of (suc (suc (suc (suc (suc n))))) = vetoed

status_of_code : (s : ProposalStatus) → status_of (code_of s) ≡ s
status_of_code active = refl
status_of_code cancelled = refl
status_of_code executed = refl
status_of_code pending = refl
status_of_code queued = refl
status_of_code vetoed = refl

abbrev tail_of : Proposal → Text
tail_of p = put p.proposer (put p.description (put_votes p.votes))

abbrev encode : Proposal → Text
encode p =
    1
    ∷ p.id
    ∷ code_of p.status
    ∷ p.quorum_votes
    ∷ p.proposal_threshold
    ∷ p.start_block
    ∷ p.end_block
    ∷ p.execution_eta
    ∷ length p.votes
    ∷ tail_of p

abbrev decode : Text → Option Proposal
decode (k ∷ id ∷ status ∷ quorum ∷ threshold ∷ start ∷ end ∷ eta ∷ n ∷ t) = some (record {
  id = id;
  proposer = read t;
  description = read (after t);
  status = status_of status;
  quorum_votes = quorum;
  proposal_threshold = threshold;
  start_block = start;
  end_block = end;
  execution_eta = eta;
  votes = read_votes n (after (after t));
})
decode _ = none

pub decode-encode : (p : Proposal) → decode (encode p) ≡ some p
decode-encode p =
    let description = put p.description (put_votes p.votes) in
    rw
      (
        status_of_code p.status,
        read-put p.proposer description,
        after_put p.proposer description,
        read-put p.description (put_votes p.votes),
        after_put p.description (put_votes p.votes),
        read_votes_put p.votes,
      )
      refl

abbrev pub texts : Redis
texts = record {
  Store = Text → Option Text;
  get = λ key s. s key;
  set = λ key value s other. if text_eq key other then some value else s other;
  exists = λ key s. is_some (s key);
  get_set = λ key value other s. refl;
  exists_get = λ key s. refl;
  stringify = encode;
  stringify_cons = λ p. (
    1,
    p.id
        ∷ code_of p.status
        ∷ p.quorum_votes
        ∷ p.proposal_threshold
        ∷ p.start_block
        ∷ p.end_block
        ∷ p.execution_eta
        ∷ length p.votes
        ∷ tail_of p,
    refl,
  );
  parse = decode;
  parse_stringify = decode-encode;
}
