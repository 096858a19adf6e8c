-- ===== src/Webapp/Proposals/Chain.antt =====
-- The states of packages/nouns-webapp/src/wrappers/nounsDao.ts against `state` of
-- packages/nouns-contracts/contracts/governance/NounsDAOLogicV1.sol.
use sznouns.Prelude.{
  ℕ, ◌+◌, ◌*◌, ◌≤◌, ◌<◌, ◌≡◌, refl, ap, ◌∙◌, Bool, true, false, ◌||◌, none, some, arith, ltb, leb,
  ◌==◌, if◌then◌else◌, Bool-cases, inl, inr,
}
use sznouns.Webapp.Proposals.{
  ProposalState, pending, active, cancelled, defeated, succeeded, queued, expired, executed, vetoed,
  ProposalSubgraphEntity, active_state, queued_state, state_from, get_proposal_state,
}

-- A proposal in the contract's storage; an `eta` of 0 is none.
pub record ChainProposal : Type 0 where
  pub start_block : ℕ
  pub end_block : ℕ
  pub for_votes : ℕ
  pub against_votes : ℕ
  pub quorum_votes : ℕ
  pub eta : ℕ
  pub vetoed : Bool
  pub canceled : Bool
  pub executed : Bool

-- `GRACE_PERIOD` of the timelock: 14 days.
abbrev timelock_grace_period : ℕ
timelock_grace_period = 14 * 24 * 60 * 60

-- `state` of the contract in a block, its time in seconds.
unfoldable pub chain_state : ℕ → ℕ → ChainProposal → ProposalState
chain_state number timestamp c =
    if c.vetoed
    then vetoed
    else if c.canceled
    then cancelled
    else if leb number c.start_block
    then pending
    else if leb number c.end_block
    then active
    else if leb c.for_votes c.against_votes || ltb c.for_votes c.quorum_votes
    then defeated
    else if c.eta == 0
    then succeeded
    else if c.executed
    then executed
    else if leb (c.eta + timelock_grace_period) timestamp
    then expired
    else queued

-- The status that the events leave in the index: the last of a veto, a cancellation, an execution and
-- a queueing, or else whether there was a vote. `cancelled_last` says that a cancellation came after a veto,
-- which the contract allows, as it allows a veto after a cancellation.
abbrev pub indexed_status : ChainProposal → Bool → Bool → ProposalState
indexed_status c has_votes cancelled_last =
    if cancelled_last
    then cancelled
    else if c.vetoed
    then vetoed
    else if c.canceled
    then cancelled
    else if c.executed
    then executed
    else if c.eta == 0
    then if has_votes then active else pending
    else queued

-- The index has the contract's proposal, and the contract let no step happen too early: votes are cast
-- after the start, and only a proposal that has succeeded is queued, and only a queued one executed. The
-- index forgets the time of execution of a proposal that is executed.
pub record Mirrors (number : ℕ) (c : ChainProposal) (has_votes cancelled_last : Bool)
    (p : ProposalSubgraphEntity) : Type 0 where
  pub status : p.status ≡ indexed_status c has_votes cancelled_last
  pub end_block : p.end_block ≡ c.end_block
  pub for_votes : p.for_votes ≡ c.for_votes
  pub against_votes : p.against_votes ≡ c.against_votes
  pub quorum_votes : p.quorum_votes ≡ c.quorum_votes
  pub execution_eta :
      p.execution_eta ≡ (if c.executed then none else if c.eta == 0 then none else some c.eta)
  pub cancelled_vetoed : cancelled_last ≡ true → (c.vetoed ≡ true) × (c.canceled ≡ true)
  pub voted : has_votes ≡ true → c.start_block < number
  pub ordered : c.start_block ≤ c.end_block
  pub queued_late : 0 < c.eta → c.end_block < number
  pub queued_won : 0 < c.eta → (c.against_votes < c.for_votes) × (c.quorum_votes ≤ c.for_votes)
  pub executed_queued : c.executed ≡ true → 0 < c.eta

module _ (number timestamp : ℕ) (c : ChainProposal) (has_votes cancelled_last : Bool)
    (p : ProposalSubgraphEntity) where
  shown-indexed :
      Mirrors number c has_votes cancelled_last p
      → get_proposal_state (some number) (some (timestamp * 1000)) p
        ≡ state_from
            (indexed_status c has_votes cancelled_last)
            (some number)
            (some (timestamp * 1000))
            p
  unfolding get_proposal_state
  shown-indexed m = ap (λ s. state_from s (some number) (some (timestamp * 1000)) p) m.status

  active_state-eq-chain :
      Mirrors number c has_votes cancelled_last p
      → c.vetoed ≡ false
      → c.canceled ≡ false
      → c.executed ≡ false
      → c.eta ≡ 0
      → c.start_block < number
      → active_state (some number) p ≡ chain_state number timestamp c
  unfolding chain_state
  active_state-eq-chain m v k x z late = elim (Bool-cases (ltb p.end_block number)) [
    | inl t ↦
        ground (arith, m.end_block, m.for_votes, m.against_votes, m.quorum_votes, m.execution_eta)
    | inr f ↦ ground (arith, m.end_block)
  ]

  queued_state-eq-chain :
      Mirrors number c has_votes cancelled_last p
      → c.vetoed ≡ false
      → c.canceled ≡ false
      → c.executed ≡ false
      → c.eta == 0 ≡ false
      → queued_state (some (timestamp * 1000)) p.execution_eta ≡ chain_state number timestamp c
  unfolding chain_state
  queued_state-eq-chain m v k x nz =
      let eta : 0 < c.eta = ground arith in
      let (won, enough) = m.queued_won eta in
      let late = m.queued_late eta in
      let eta_is : p.execution_eta ≡ some c.eta = m.execution_eta ∙ rw (x, nz) refl in
      ap (queued_state (some (timestamp * 1000))) eta_is ∙ ground (arith, m.ordered)

  not_last : Mirrors number c has_votes cancelled_last p → c.vetoed ≡ false → cancelled_last ≡ false
  not_last m v = elim (Bool-cases cancelled_last) [
    | inl last ↦ let (so, _) = m.cancelled_vetoed last in absurd cc
    | inr first ↦ first
  ]

  indexed-eq-chain :
      Mirrors number c has_votes cancelled_last p
      → cancelled_last ≡ false
      → 0 < number
      → (has_votes ≡ false → c.eta ≡ 0 → number ≤ c.start_block)
      → state_from
          (indexed_status c has_votes cancelled_last)
          (some number)
          (some (timestamp * 1000))
          p
        ≡ chain_state number timestamp c
  unfolding chain_state
  indexed-eq-chain m first pos still = elim (Bool-cases c.vetoed) [
    | inl v ↦ rw (first, v) refl
    | inr v ↦ elim (Bool-cases c.canceled) [
      | inl k ↦ rw (first, v, k) refl
      | inr k ↦ elim (Bool-cases c.executed) [
        | inl x ↦
            let eta = m.executed_queued x in
            let (won, enough) = m.queued_won eta in
            let late = m.queued_late eta in ground (arith, m.ordered)
        | inr x ↦ elim (Bool-cases (c.eta == 0)) [
          | inr nz ↦
              rw (first, v, k, x, nz) (queued_state-eq-chain m v k x nz ∙ rw (v, k, x, nz) refl)
          | inl z ↦
              let none_eta : c.eta ≡ 0 = ground arith in
              elim (Bool-cases has_votes) [
                | inl h ↦
                    rw (first, v, k, x, z, h)
                      (active_state-eq-chain m v k x none_eta (m.voted h) ∙ rw (v, k, x, z) refl)
                | inr n ↦ let early = still n none_eta in rw (n) (ground arith)
              ]
        ]
      ]
    ]
  ]

  -- In any block but the first one, at a whole second, a page shows the contract's state of a proposal
  -- that the index mirrors, unless nobody has voted and its voting has begun; but one that was cancelled
  -- after a veto is shown as cancelled, where the contract says that it is vetoed.
  pub get_proposal_state-eq-chain_state :
      Mirrors number c has_votes cancelled_last p
      → 0 < number
      → (has_votes ≡ false → c.eta ≡ 0 → number ≤ c.start_block)
      → (get_proposal_state (some number) (some (timestamp * 1000)) p
          ≡ (if cancelled_last then cancelled else chain_state number timestamp c))
        × ((if cancelled_last then chain_state number timestamp c else vetoed) ≡ vetoed)
  unfolding chain_state
  get_proposal_state-eq-chain_state m pos still = elim (Bool-cases cancelled_last) [
    | inl last ↦
        let (v, k) = m.cancelled_vetoed last in
        (shown-indexed m ∙ rw (indexed_status, last) refl, rw (last, v) refl)
    | inr first ↦
        (shown-indexed m ∙ (indexed-eq-chain m first pos still ∙ rw first refl), rw first refl)
  ]

  -- A proposal that nobody has voted on stays pending on the page: once its voting has begun the
  -- contract says that it is active, and afterwards that it is defeated.
  pub get_proposal_state_no_votes :
      Mirrors number c has_votes cancelled_last p
      → has_votes ≡ false
      → c.vetoed ≡ false
      → c.canceled ≡ false
      → c.executed ≡ false
      → c.eta ≡ 0
      → c.for_votes ≡ 0
      → c.start_block < number
      → (get_proposal_state (some number) (some (timestamp * 1000)) p ≡ pending)
        × (chain_state number timestamp c ≡ (if leb number c.end_block then active else defeated))
  unfolding chain_state
  get_proposal_state_no_votes m n v k x z none_for late = (
    shown-indexed m
        ∙ (let at : c.eta == 0 ≡ true = ground arith in rw (not_last m v, v, k, x, at, n) refl),
    ground arith,
  )
