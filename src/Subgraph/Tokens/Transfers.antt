-- ===== src/Subgraph/Tokens/Transfers.antt =====
-- What a transfer of a noun does to the accounts, the noun and the counts
-- (packages/nouns-subgraph/src/nouns-erc-721.ts, `handleTransfer`).
use sznouns.Prelude.{
  ℕ, ◌+◌, List, ◌≡◌, ◌≢◌, refl, sym, ap, ◌∙◌, Bool, false, ◌&&◌, Option, none, some, [], ◌∷◌, ◌++◌,
  arith, if◌then◌else◌, Text, text_eq, text_eq_iff, Bool-cases, inl, inr,
}
use sznouns.Prelude.Int.{ℤ, ◌+ℤ◌, ◌-ℤ◌, ltb_ℤ, eqb_ℤ}
use sznouns.Subgraph.Graph.{Graph, load_save_self}
use sznouns.Subgraph.Entities.{Account, Governance, Store}
use sznouns.Subgraph.Helpers.{
  get_or_create_delegate, get_governance_entity, zero_address, bigint_zero, bigint_one,
}
use sznouns.Subgraph.Helpers.Stored.{get_or_create_account_stored}
use sznouns.Subgraph.Tokens.{
  Transfer, handle_transfer, transfer_from, transfer_to, take_from, give_to, drop_represented,
  log_negative, without,
}

-- How often a noun is in a list.
abbrev pub times : Text → List Text → ℕ
times noun [] = 0
times noun (n ∷ ns) = (if text_eq noun n then 1 else 0) + times noun ns

times-without :
    (noun other : Text) (ns : List Text)
    → times other (without noun ns) ≡ (if text_eq other noun then 0 else times other ns)
unfolding without
times-without noun other [] = ground arith
times-without noun other (n ∷ ns) = ground (
  arith,
  times-without noun other ns,
  text_eq_iff n noun,
  text_eq_iff other n,
  text_eq_iff other noun,
)

module _ (g : Graph) where
  open g use {load, save, load_save, to_string, to_hex_string}

  accounts-get_or_create_delegate :
      (id : Text) (s : Store g) → (get_or_create_delegate g id s).0.accounts ≡ s.accounts
  unfolding get_or_create_delegate
  accounts-get_or_create_delegate id s = ground arith

  accounts-drop_represented :
      (noun : Text) (d : Option Text) (s : Store g)
      → (drop_represented g noun d s).accounts ≡ s.accounts
  accounts-drop_represented noun none s = refl
  accounts-drop_represented noun (some id) s = accounts-get_or_create_delegate id s

  -- The account of the sender afterwards, with the nouns and the delegate it then has.
  abbrev pub sent : List Text → Account → Option Text → Account
  sent nouns h d = record h {
    delegate = d;
    token_balance_raw = h.token_balance_raw -ℤ bigint_one;
    token_balance = h.token_balance_raw -ℤ bigint_one;
    nouns = nouns;
  }

  abbrev pub received : Text → Account → Option Text → Account
  received noun h d = record h {
    delegate = d;
    token_balance_raw = h.token_balance_raw +ℤ bigint_one;
    token_balance = h.token_balance_raw +ℤ bigint_one;
    total_tokens_held_raw = h.total_tokens_held_raw +ℤ bigint_one;
    total_tokens_held = h.total_tokens_held_raw +ℤ bigint_one;
    nouns = h.nouns ++ noun ∷ [];
  }

  -- The balance becomes zero, or stops being zero.
  abbrev leaves : ℤ → ℤ → Bool
  leaves previous balance = eqb_ℤ balance bigint_zero && ltb_ℤ bigint_zero previous

  abbrev enters : ℤ → ℤ → Bool
  enters previous balance = ltb_ℤ bigint_zero balance && eqb_ℤ previous bigint_zero

  accounts-log_negative : (a : Account) (s : Store g) → (log_negative g a s).accounts ≡ s.accounts
  accounts-log_negative a s = ground arith

  accounts-transfer_from :
      (noun : Text) (h : Account) (v : Governance) (s : Store g)
      → (d : Option Text) × ((transfer_from g noun h v s).0.accounts
          ≡ save h.id (sent (without noun h.nouns) h d) s.accounts)
  unfolding transfer_from
  accounts-transfer_from noun h v s =
      let left = leaves h.token_balance_raw (h.token_balance_raw -ℤ bigint_one) in
      let entered = enters h.token_balance_raw (h.token_balance_raw -ℤ bigint_one) in
      let d = if left then none else h.delegate in
      let kept =
        accounts-log_negative (sent (without noun h.nouns) h h.delegate)
          (drop_represented g noun h.delegate s)
        ∙ accounts-drop_represented noun h.delegate s in
      (
        d,
        elim (Bool-cases left) [
          | inl so ↦ rw (so) (ap (save h.id (sent (without noun h.nouns) h none)) kept)
          | inr not_left ↦ elim (Bool-cases entered) [
            | inl so ↦
                rw (not_left, so) (ap (save h.id (sent (without noun h.nouns) h h.delegate)) kept)
            | inr stays ↦
                rw (not_left, stays)
                  (ap (save h.id (sent (without noun h.nouns) h h.delegate)) kept)
          ]
        ],
      )

  accounts-transfer_to :
      (noun : Text) (h : Account) (v : Governance) (s : Store g)
      → (d : Option Text) × ((transfer_to g noun h v s).accounts
          ≡ save h.id (received noun h d) s.accounts)
  unfolding transfer_to
  accounts-transfer_to noun h v s =
      let left = leaves h.token_balance_raw (h.token_balance_raw +ℤ bigint_one) in
      let entered = enters h.token_balance_raw (h.token_balance_raw +ℤ bigint_one) in
      let kept = accounts-get_or_create_delegate h.id s in
      (
        if left then h.delegate else if entered then some h.id else h.delegate,
        elim (Bool-cases left) [
          | inl so ↦ rw (so) (ap (save h.id (received noun h h.delegate)) kept)
          | inr not_left ↦ elim (Bool-cases entered) [
            | inl so ↦ rw (not_left, so) (ap (save h.id (received noun h (some h.id))) kept)
            | inr stays ↦ rw (not_left, stays) (ap (save h.id (received noun h h.delegate)) kept)
          ]
        ],
      )

  accounts-take_from :
      («from» noun : Text) (h : Account) (v : Governance) (s : Store g)
      → text_eq «from» zero_address ≡ false
      → (d : Option Text) × ((take_from g «from» noun h v s).0.accounts
          ≡ save h.id (sent (without noun h.nouns) h d) s.accounts)
  unfolding take_from
  accounts-take_from «from» noun h v s not_zero =
      let (d, same) = accounts-transfer_from noun h v s in (d, rw (not_zero) same)

  accounts-give_to :
      (to noun : Text) (h : Account) (v : Governance) (s : Store g)
      → text_eq to zero_address ≡ false
      → (d : Option Text) × ((give_to g to noun h v s).accounts
          ≡ save h.id (received noun h d) s.accounts)
  unfolding give_to
  accounts-give_to to noun h v s not_zero =
      let (d, same) = accounts-transfer_to noun h v s in (d, rw (not_zero) same)

  load_both :
      (k j i : Text) (v w : Account) (m : g.Table Account)
      → j ≡ i
      → j ≢ k
      → load i (save k v (save j w m)) ≡ some w
  load_both k j i v w m same other =
      ground
        (arith, load_save k i v (save j w m), load_save j i w m, text_eq_iff k i, text_eq_iff j i)

  -- The accounts of an event, as they are stored.
  pub record Holders (e : Transfer) (s : Store g) (a b : Account) : Type 0 where
    pub sender : load (to_hex_string e.«from») s.accounts ≡ some a
    pub sender_id : a.id ≡ to_hex_string e.«from»
    pub receiver : load (to_hex_string e.to) s.accounts ≡ some b
    pub receiver_id : b.id ≡ to_hex_string e.to
    pub other : a.id ≢ b.id
    pub not_minted : text_eq (to_hex_string e.«from») zero_address ≡ false
    pub not_burnt : text_eq (to_hex_string e.to) zero_address ≡ false

  pub handle_transfer_stored :
      (e : Transfer) (s : Store g) (a b : Account)
      → load (to_hex_string e.«from») s.accounts ≡ some a
      → load (to_hex_string e.to) s.accounts ≡ some b
      → handle_transfer g e s ≡ (
          let noun = to_string e.token_id in
          let t = take_from g (to_hex_string e.«from») noun a (get_governance_entity g s) s in
          give_to g (to_hex_string e.to) noun b t.1 t.0)
  unfolding handle_transfer
  handle_transfer_stored e s a b sender receiver = rw (
    get_or_create_account_stored g (to_hex_string e.«from») s a sender,
    get_or_create_account_stored g (to_hex_string e.to) s b receiver,
  )

  handle_transfer_filters :
      (e : Transfer) (s : Store g) (a b : Account)
      → Holders e s a b
      → (c : Option Text) × (d : Option Text) × (load
            (to_hex_string e.«from»)
            (handle_transfer g e s).accounts
          ≡ some (sent (without (to_string e.token_id) a.nouns) a c))
        × (load (to_hex_string e.to) (handle_transfer g e s).accounts
            ≡ some (received (to_string e.token_id) b d))
  handle_transfer_filters e s a b h =
      let noun = to_string e.token_id in
      let v = get_governance_entity g s in
      let t = take_from g (to_hex_string e.«from») noun a v s in
      let (c, from_accounts) =
        accounts-take_from (to_hex_string e.«from») noun a v s h.not_minted in
      let (d, to_accounts) = accounts-give_to (to_hex_string e.to) noun b t.1 t.0 h.not_burnt in
      let accounts : (handle_transfer g e s).accounts
          ≡ save b.id (received noun b d) (save a.id (sent (without noun a.nouns) a c) s.accounts) =
        ap (λ (u : Store g). u.accounts) (handle_transfer_stored e s a b h.sender h.receiver)
        ∙ (to_accounts ∙ ap (save b.id (received noun b d)) from_accounts) in
      (
        c,
        d,
        ap (load (to_hex_string e.«from»)) accounts
            ∙ load_both b.id a.id (to_hex_string e.«from») (received noun b d)
                (sent (without noun a.nouns) a c) s.accounts h.sender_id h.other,
        ap (load (to_hex_string e.to)) accounts
            ∙ (ap
                  (λ k. load k (
                    save b.id (received noun b d)
                      (save a.id (sent (without noun a.nouns) a c) s.accounts)))
                  (sym h.receiver_id)
                ∙ load_save_self g b.id (received noun b d)
                    (save a.id (sent (without noun a.nouns) a c) s.accounts)),
      )

  -- Between two different accounts that are stored, neither of them at the zero address, the sender's
  -- balance is one less and the receiver's one more, in both fields; the receiver has held one token
  -- more in all; the noun is no longer among the sender's nouns, where every other noun is as often as
  -- before; and the noun is added to the receiver's.
  pub handle_transfer_moves :
      (e : Transfer) (s : Store g) (a b : Account)
      → Holders e s a b
      → (c : Option Text) × (d : Option Text) × (kept : List Text) × (load
            (to_hex_string e.«from»)
            (handle_transfer g e s).accounts
          ≡ some (sent kept a c))
        × ((other : Text)
            → times other kept
              ≡ (if text_eq other (to_string e.token_id) then 0 else times other a.nouns))
        × (load (to_hex_string e.to) (handle_transfer g e s).accounts
            ≡ some (received (to_string e.token_id) b d))
  handle_transfer_moves e s a b h =
      let noun = to_string e.token_id in
      let (c, d, gave, got) = handle_transfer_filters e s a b h in
      (c, d, without noun a.nouns, gave, λ other. times-without noun other a.nouns, got)
