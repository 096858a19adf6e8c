-- ===== src/Bots/Proposals.antt =====
-- Proposals as the bot reads them (packages/nouns-bots/src/utils/proposals.ts).
use sznouns.Prelude.{
  ℕ, ◌+◌, ◌*◌, Bool, true, false, not, ◌&&◌, List, [], ◌∷◌, ltb, leb, ◌==◌, if◌then◌else◌, Text,
  text_eq, skip_space,
}
use sznouns.Bots.{Proposal, ProposalStatus, queued, Vote}

abbrev pub seconds_in_day : ℕ
seconds_in_day = 60 * 60 * 24

abbrev pub ids_of : List Vote → List Text
ids_of [] = []
ids_of (v ∷ votes) = v.id ∷ ids_of votes

-- `ids.indexOf(id) !== -1`
unfoldable pub includes : List Text → Text → Bool
includes [] id = false
includes (i ∷ ids) id = if text_eq i id then true else includes ids id

abbrev pub filter_new : List Text → List Vote → List Vote
filter_new ids [] = []
filter_new ids (v ∷ votes) =
    if not (includes ids v.id) && ltb 0 v.votes
    then v ∷ filter_new ids votes
    else filter_new ids votes

unfoldable pub extract_new_votes : Proposal → Proposal → List Vote
extract_new_votes proposal_before proposal_after =
    filter_new (ids_of proposal_before.votes) proposal_after.votes

-- `text.split('\n')[0]`
abbrev pub first_line : Text → Text
first_line [] = []
first_line (c ∷ t) = if c == 10 then [] else c ∷ first_line t

-- `line.replace(/^#\s*/, '')`
abbrev pub strip_heading : Text → Text
strip_heading [] = []
strip_heading (c ∷ t) = if c == 35 then skip_space t else c ∷ t

unfoldable pub extract_proposal_title : Proposal → Text
extract_proposal_title p = strip_heading (first_line p.description)

abbrev pub is_queued : ProposalStatus → Bool
is_queued queued = true
is_queued _ = false

unfoldable pub is_at_risk_of_expiry : ℕ → Proposal → Bool
is_at_risk_of_expiry current_timestamp p =
    if not (is_queued p.status)
    then false
    else let expires_at = p.execution_eta + seconds_in_day * 14 in
      ltb current_timestamp expires_at && leb expires_at (current_timestamp + seconds_in_day * 2)
