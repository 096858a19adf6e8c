-- ===== src/Subgraph/Tokens/Counts.antt =====
-- The governance entity's counts after a mint (packages/nouns-subgraph/src/nouns-erc-721.ts,
-- `handleTransfer`).
use sznouns.Prelude.{◌≡◌, refl, ap, ◌∙◌, true, false, none, some, [], ◌∷◌, ◌++◌, Text, text_eq}
use sznouns.Prelude.Int.{pos, ◌+ℤ◌}
use sznouns.Subgraph.Graph.{Graph, load_save_self}
use sznouns.Subgraph.Entities.{Account, Delegate, Governance, Store}
use sznouns.Subgraph.Helpers.{
  get_or_create_delegate, get_governance_entity, zero_address, bigint_one, governance_id, or_new,
  new_governance, save_governance,
}
use sznouns.Subgraph.Tokens.{Transfer, handle_transfer, transfer_to, take_from, give_to}
use sznouns.Subgraph.Tokens.Transfers.{handle_transfer_stored}

module _ (g : Graph) where
  open g use {load, save, load_save, to_string, to_hex_string}

  transfer_to-first :
      (noun : Text) (h : Account) (v : Governance) (s : Store g)
      → h.token_balance_raw ≡ pos 0
      → (transfer_to g noun h v s).governances
        ≡ save governance_id
            (record v { current_token_holders = v.current_token_holders +ℤ bigint_one })
            (get_or_create_delegate g h.id s).0.governances
  unfolding transfer_to ◌+ℤ◌
  transfer_to-first noun h v s empty = rw (empty) refl

  get_or_create_delegate-id :
      (id : Text) (s : Store g)
      → load id s.delegates ≡ none
      → (get_or_create_delegate g id s).1.id ≡ id
  unfolding get_or_create_delegate
  get_or_create_delegate-id id s new = rw (new, get_or_create_delegate) refl

  delegates-transfer_to :
      (noun : Text) (h : Account) (v : Governance) (s : Store g)
      → h.token_balance_raw ≡ pos 0
      → load h.id s.delegates ≡ none
      → (d : Delegate) × (load h.id (transfer_to g noun h v s).delegates ≡ some d)
  unfolding transfer_to ◌+ℤ◌
  delegates-transfer_to noun h v s empty new =
      let (t, d) = get_or_create_delegate g h.id s in
      let joined = record d { nouns_represented = d.nouns_represented ++ noun ∷ [] } in
      (
        joined,
        rw (empty) (
            ap (λ k. load h.id (save k joined t.delegates)) (get_or_create_delegate-id h.id s new)
            ∙ load_save_self g h.id joined t.delegates),
      )

  -- What a later load of the governance entity gives.
  total_delegates-transfer_to :
      (noun : Text) (h : Account) (v : Governance) (s : Store g)
      → h.token_balance_raw ≡ pos 0
      → (get_governance_entity g (transfer_to g noun h v s)).total_delegates ≡ v.total_delegates
  unfolding get_governance_entity
  total_delegates-transfer_to noun h v s empty =
      let v' = record v { current_token_holders = v.current_token_holders +ℤ bigint_one } in
      ap (λ m. (or_new (load governance_id m) new_governance).total_delegates)
        (transfer_to-first noun h v s empty)
      ∙ ap (λ o. (or_new o new_governance).total_delegates)
          (load_save_self g governance_id v' (get_or_create_delegate g h.id s).0.governances)

  take_from_zero :
      («from» noun : Text) (h : Account) (v : Governance) (s : Store g)
      → text_eq «from» zero_address ≡ true
      → take_from g «from» noun h v s ≡ (
          let minted = record v { total_token_holders = v.total_token_holders +ℤ bigint_one } in
          (save_governance g minted s, minted))
  unfolding take_from
  take_from_zero «from» noun h v s zero = rw (zero) refl

  give_to_kept :
      (to noun : Text) (h : Account) (v : Governance) (s : Store g)
      → text_eq to zero_address ≡ false
      → give_to g to noun h v s ≡ transfer_to g noun h v s
  unfolding give_to
  give_to_kept to noun h v s not_zero = rw (not_zero) refl

  -- The first noun of an account that is stored, minted to it (from an account of the zero address
  -- that is stored), stores a new delegate for it; the total number of delegates stays as it was.
  pub handle_transfer_mint :
      (e : Transfer) (s : Store g) (a b : Account)
      → load (to_hex_string e.«from») s.accounts ≡ some a
      → load (to_hex_string e.to) s.accounts ≡ some b
      → text_eq (to_hex_string e.«from») zero_address ≡ true
      → text_eq (to_hex_string e.to) zero_address ≡ false
      → b.token_balance_raw ≡ pos 0
      → load b.id s.delegates ≡ none
      → (d : Delegate) × (load b.id (handle_transfer g e s).delegates ≡ some d)
        × ((get_governance_entity g (handle_transfer g e s)).total_delegates
            ≡ (get_governance_entity g s).total_delegates)
  handle_transfer_mint e s a b sender receiver mint kept empty new =
      let noun = to_string e.token_id in
      let v = get_governance_entity g s in
      let minted = record v { total_token_holders = v.total_token_holders +ℤ bigint_one } in
      let s' = save_governance g minted s in
      let run : handle_transfer g e s ≡ transfer_to g noun b minted s' =
        handle_transfer_stored g e s a b sender receiver
        ∙ (ap (λ (t : Store g × Governance). give_to g (to_hex_string e.to) noun b t.1 t.0)
              (take_from_zero (to_hex_string e.«from») noun a v s mint)
            ∙ give_to_kept (to_hex_string e.to) noun b minted s' kept) in
      let (d, there) = delegates-transfer_to noun b minted s' empty new in
      (
        d,
        ap (λ (u : Store g). load b.id u.delegates) run ∙ there,
        ap (λ u. (get_governance_entity g u).total_delegates) run
            ∙ total_delegates-transfer_to noun b minted s' empty,
      )
