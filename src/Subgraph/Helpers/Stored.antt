-- ===== src/Subgraph/Helpers/Stored.antt =====
-- Loading or creating an entity that is stored gives it, and changes nothing
-- (packages/nouns-subgraph/src/utils/helpers.ts).
use sznouns.Prelude.{◌≡◌, some, Text}
use sznouns.Subgraph.Graph.{Graph}
use sznouns.Subgraph.Entities.{Account, Delegate, Proposal, Store}
use sznouns.Subgraph.Helpers.{get_or_create_account, get_or_create_delegate, get_or_create_proposal}

module _ (g : Graph) where
  open g use {load}

  pub get_or_create_account_stored :
      (id : Text) (s : Store g) (a : Account)
      → load id s.accounts ≡ some a
      → get_or_create_account g id s ≡ (s, a)
  unfolding get_or_create_account
  get_or_create_account_stored id s a h = rw (h, get_or_create_account)

  pub get_or_create_delegate_stored :
      (id : Text) (s : Store g) (d : Delegate)
      → load id s.delegates ≡ some d
      → get_or_create_delegate g id s ≡ (s, d)
  unfolding get_or_create_delegate
  get_or_create_delegate_stored id s d h = rw (h, get_or_create_delegate)

  pub get_or_create_proposal_stored :
      (id : Text) (s : Store g) (p : Proposal)
      → load id s.proposals ≡ some p
      → get_or_create_proposal g id s ≡ (s, p)
  unfolding get_or_create_proposal
  get_or_create_proposal_stored id s p h = rw (h, get_or_create_proposal)
