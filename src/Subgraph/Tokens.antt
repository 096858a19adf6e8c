-- ===== src/Subgraph/Tokens.antt =====
-- The handlers of the token's events (packages/nouns-subgraph/src/nouns-erc-721.ts). Every load gives a copy:
-- what another copy saves in between is overwritten by a later save.
pub mod Delegation
pub mod Transfers
pub mod Counts
use sznouns.Prelude.{
  ℕ, ◌+◌, ◌-◌, ◌%◌, ◌^◌, Bool, true, false, not, ◌&&◌, Option, none, some, List, [], ◌∷◌, ◌++◌,
  if◌then◌else◌, Text, text_eq,
}
use sznouns.Prelude.Int.{ℤ, pos, ◌+ℤ◌, ◌-ℤ◌, ltb_ℤ, eqb_ℤ}
use sznouns.Subgraph.Graph.{Graph}
use sznouns.Subgraph.Entities.{
  Seed, Noun, Account, Delegate, Governance, Store, noun_not_found_on_created, negative_balance,
}
use sznouns.Subgraph.Helpers.{
  get_or_create_account, get_or_create_delegate, get_governance_entity, save_account, save_delegate,
  save_governance, zero_address, bigint_zero, bigint_one, or_new,
}
use sznouns.Subgraph.Auctions.{log_error}

pub record NounCreated : Type 0 where
  pub token_id : ℕ
  pub background : ℤ
  pub body : ℤ
  pub accessory : ℤ
  pub head : ℤ
  pub glasses : ℤ

pub record DelegateChanged : Type 0 where
  pub delegator : ℕ
  pub from_delegate : ℕ
  pub to_delegate : ℕ

pub record DelegateVotesChanged : Type 0 where
  pub delegate : ℕ
  pub previous_balance : ℤ
  pub new_balance : ℤ

pub record Transfer : Type 0 where
  pub «from» : ℕ
  pub to : ℕ
  pub token_id : ℕ

-- `i32` arithmetic on bit patterns.
abbrev pub incr32 : ℕ → ℕ
incr32 n = (n + 1) % 4294967296

abbrev pub decr32 : ℕ → ℕ
decr32 n = (n + 4294967295) % 4294967296

-- `nouns.includes(n)`
unfoldable pub includes : Text → List Text → Bool
includes n [] = false
includes n (m ∷ ms) = if text_eq m n then true else includes n ms

-- `nouns.filter(n => !drop.includes(n))`
unfoldable pub without_all : List Text → List Text → List Text
unfolding includes
without_all drop [] = []
without_all drop (n ∷ ns) =
    let rest = without_all drop ns in if includes n drop then rest else n ∷ rest

-- `nouns.filter(n => n != noun)`
unfoldable pub without : Text → List Text → List Text
without noun [] = []
without noun (n ∷ ns) = let rest = without noun ns in if text_eq n noun then rest else n ∷ rest

-- The previous delegate gives up the holder's nouns, and the new one gets them.
abbrev pub leave_delegate : List Text → Delegate → Delegate
leave_delegate account_nouns d = record d {
  token_holders_represented_amount = decr32 d.token_holders_represented_amount;
  nouns_represented = without_all account_nouns d.nouns_represented;
}

abbrev pub join_delegate : List Text → Delegate → Delegate
join_delegate account_nouns d = record d {
  token_holders_represented_amount = incr32 d.token_holders_represented_amount;
  nouns_represented = d.nouns_represented ++ account_nouns;
}

module _ (g : Graph) where
  open g use {load, save, to_string, to_hex_string}

  abbrev pub save_noun : Noun → Store g → Store g
  save_noun n s = record s { nouns = save n.id n s.nouns }

  unfoldable pub handle_noun_created : NounCreated → Store g → Store g
  handle_noun_created e s =
      let noun_id = to_string e.token_id in
      let seed : Seed = record {
        id = noun_id;
        background = e.background;
        body = e.body;
        accessory = e.accessory;
        head = e.head;
        glasses = e.glasses;
      } in
      let s' : Store g = record s { seeds = save noun_id seed s.seeds } in
      elim (load noun_id s.nouns) [
        | none ↦ log_error g (noun_not_found_on_created noun_id) s'
        | some noun ↦ save_noun (record noun { seed = some noun_id }) s'
      ]

  unfoldable pub handle_delegate_changed : DelegateChanged → Store g → Store g
  unfolding get_or_create_account get_or_create_delegate without_all
  handle_delegate_changed e s =
      let (s1, token_holder) = get_or_create_account g (to_hex_string e.delegator) s in
      let (s2, previous_delegate) = get_or_create_delegate g (to_hex_string e.from_delegate) s1 in
      let (s3, new_delegate) = get_or_create_delegate g (to_hex_string e.to_delegate) s2 in
      let s4 = save_account g (record token_holder { delegate = some new_delegate.id }) s3 in
      let s5 = save_delegate g (leave_delegate token_holder.nouns previous_delegate) s4 in
      save_delegate g (join_delegate token_holder.nouns new_delegate) s5

  -- The number of delegates with votes, after a change of one's votes.
  abbrev pub count_current : DelegateVotesChanged → ℤ → ℤ
  count_current e n =
      let n' =
        if eqb_ℤ e.previous_balance bigint_zero && ltb_ℤ bigint_zero e.new_balance
        then n +ℤ bigint_one
        else n in
      if eqb_ℤ e.new_balance bigint_zero then n' -ℤ bigint_one else n'

  unfoldable pub handle_delegate_votes_changed : DelegateVotesChanged → Store g → Store g
  unfolding get_governance_entity get_or_create_delegate
  handle_delegate_votes_changed e s =
      let governance = get_governance_entity g s in
      let (s', delegate) = get_or_create_delegate g (to_hex_string e.delegate) s in
      let votes_difference = e.new_balance -ℤ e.previous_balance in
      let total = governance.delegated_votes_raw +ℤ votes_difference in
      let s'' =
        save_delegate g
          (record delegate { delegated_votes_raw = e.new_balance; delegated_votes = e.new_balance })
          s' in
      save_governance g
        (record governance {
          current_delegates = count_current e governance.current_delegates;
          delegated_votes_raw = total;
          delegated_votes = total;
        })
        s''

  -- The delegate of a sender no longer represents the noun.
  abbrev pub drop_represented : Text → Option Text → Store g → Store g
  drop_represented noun none s = s
  drop_represented noun (some id) s =
      let (s', delegate) = get_or_create_delegate g id s in
      save_delegate g
        (record delegate { nouns_represented = without noun delegate.nouns_represented }) s'

  abbrev pub log_negative : Account → Store g → Store g
  log_negative a s =
      if ltb_ℤ a.token_balance_raw bigint_zero
      then log_error g (negative_balance a.id a.token_balance_raw) s
      else s

  -- The sender, who is not the zero address, with the handler's copy of the governance entity.
  unfoldable pub transfer_from : Text → Account → Governance → Store g → Store g × Governance
  unfolding get_or_create_delegate without
  transfer_from noun holder governance s =
      let previous = holder.token_balance_raw in
      let balance = previous -ℤ bigint_one in
      let holder' = record holder {
        token_balance_raw = balance;
        token_balance = balance;
        nouns = without noun holder.nouns;
      } in
      let s1 = log_negative holder' (drop_represented noun holder.delegate s) in
      let left = eqb_ℤ balance bigint_zero && ltb_ℤ bigint_zero previous in
      let entered = ltb_ℤ bigint_zero balance && eqb_ℤ previous bigint_zero in
      let governance' =
        if left
        then record governance {
          current_token_holders = governance.current_token_holders -ℤ bigint_one;
        }
        else if entered
        then record governance {
          current_token_holders = governance.current_token_holders +ℤ bigint_one;
        }
        else governance in
      let s2 =
        if left
        then save_governance g governance' s1
        else if entered
        then save_governance g governance' s1
        else s1 in
      let holder'' = if left then record holder' { delegate = none } else holder' in
      (save_account g holder'' s2, governance')

  -- The receiver, and the noun's owner.
  unfoldable pub transfer_to : Text → Account → Governance → Store g → Store g
  unfolding get_or_create_delegate
  transfer_to noun holder governance s =
      let (s1, delegate) = get_or_create_delegate g holder.id s in
      let s2 =
        save_delegate g
          (record delegate { nouns_represented = delegate.nouns_represented ++ noun ∷ [] }) s1 in
      let previous = holder.token_balance_raw in
      let balance = previous +ℤ bigint_one in
      let held = holder.total_tokens_held_raw +ℤ bigint_one in
      let holder' = record holder {
        token_balance_raw = balance;
        token_balance = balance;
        total_tokens_held_raw = held;
        total_tokens_held = held;
        nouns = holder.nouns ++ noun ∷ [];
      } in
      let left = eqb_ℤ balance bigint_zero && ltb_ℤ bigint_zero previous in
      let entered = ltb_ℤ bigint_zero balance && eqb_ℤ previous bigint_zero in
      let s3 =
        if left
        then save_governance g
            (record governance {
              current_token_holders = governance.current_token_holders -ℤ bigint_one;
            })
            s2
        else if entered
        then save_governance g
            (record governance {
              current_token_holders = governance.current_token_holders +ℤ bigint_one;
            })
            s2
        else s2 in
      let holder'' =
        if left
        then holder'
        else if entered
        then record holder' { delegate = some holder.id }
        else holder' in
      let fresh : Noun = record { id = noun; seed = none; owner = none } in
      let owned = or_new (load noun s3.nouns) fresh in
      save_account g holder'' (save_noun (record owned { owner = some holder.id }) s3)

  -- A mint has no sender.
  unfoldable pub take_from : Text → Text → Account → Governance → Store g → Store g × Governance
  take_from «from» noun holder governance s =
      let minted = record governance {
        total_token_holders = governance.total_token_holders +ℤ bigint_one;
      } in
      if text_eq «from» zero_address
      then (save_governance g minted s, minted)
      else transfer_from noun holder governance s

  unfoldable pub give_to : Text → Text → Account → Governance → Store g → Store g
  give_to to noun holder governance s =
      let burnt = record governance {
        total_token_holders = governance.total_token_holders -ℤ bigint_one;
      } in
      if text_eq to zero_address
      then transfer_to noun holder burnt (save_governance g burnt s)
      else transfer_to noun holder governance s

  unfoldable pub handle_transfer : Transfer → Store g → Store g
  handle_transfer e s =
      let «from» = to_hex_string e.«from» in
      let to = to_hex_string e.to in
      let (s1, from_holder) = get_or_create_account g «from» s in
      let (s2, to_holder) = get_or_create_account g to s1 in
      let noun = to_string e.token_id in
      let (s3, governance) = take_from «from» noun from_holder (get_governance_entity g s2) s2 in
      give_to to noun to_holder governance s3
