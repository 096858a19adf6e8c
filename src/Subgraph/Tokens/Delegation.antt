-- ===== src/Subgraph/Tokens/Delegation.antt =====
-- What a change of delegate does to the two delegates (packages/nouns-subgraph/src/nouns-erc-721.ts,
-- `handleDelegateChanged`).
use sznouns.Prelude.{
  ◌%◌, ◌≡◌, ◌≢◌, refl, true, false, ◌||◌, some, List, [], ◌∷◌, ◌++◌, arith, Text, text_eq_iff,
}
use sznouns.Subgraph.Graph.{Graph, load_save_self}
use sznouns.Subgraph.Entities.{Account, Delegate, Store}
use sznouns.Subgraph.Helpers.Stored.{get_or_create_account_stored, get_or_create_delegate_stored}
use sznouns.Subgraph.Tokens.{
  DelegateChanged, handle_delegate_changed, leave_delegate, join_delegate, includes, without_all,
  incr32,
}

includes-append :
    (n : Text) (ns ms : List Text) → includes n (ns ++ ms) ≡ (includes n ns || includes n ms)
unfolding includes
includes-append n [] ms = refl
includes-append n (k ∷ ns) ms = ground (arith, includes-append n ns ms)

includes-without_all :
    (n : Text) (drop ns : List Text)
    → includes n drop ≡ true
    → includes n (without_all drop ns) ≡ false
unfolding includes without_all
includes-without_all n drop [] h = refl
includes-without_all n drop (k ∷ ns) h =
    ground (arith, includes-without_all n drop ns h, text_eq_iff k n)

includes-without_all_other :
    (n : Text) (drop ns : List Text)
    → includes n drop ≡ false
    → includes n (without_all drop ns) ≡ includes n ns
unfolding includes without_all
includes-without_all_other n drop [] h = refl
includes-without_all_other n drop (k ∷ ns) h =
    ground (arith, includes-without_all_other n drop ns h, text_eq_iff k n)

module _ (g : Graph) where
  open g use {load, save, load_save, to_string, to_hex_string}

  -- The entities that an event names, as they are stored.
  pub record Names (e : DelegateChanged) (s : Store g) (a : Account) (p n : Delegate) : Type 0 where
    pub holder : load (to_hex_string e.delegator) s.accounts ≡ some a
    pub holder_id : a.id ≡ to_hex_string e.delegator
    pub previous : load (to_hex_string e.from_delegate) s.delegates ≡ some p
    pub previous_id : p.id ≡ to_hex_string e.from_delegate
    pub next : load (to_hex_string e.to_delegate) s.delegates ≡ some n
    pub next_id : n.id ≡ to_hex_string e.to_delegate

  delegates_after :
      (e : DelegateChanged) (s : Store g) (a : Account) (p n : Delegate)
      → Names e s a p n
      → (handle_delegate_changed g e s).delegates
        ≡ save n.id (join_delegate a.nouns n) (save p.id (leave_delegate a.nouns p) s.delegates)
  unfolding handle_delegate_changed
  delegates_after e s a p n h = rw (
    get_or_create_account_stored g (to_hex_string e.delegator) s a h.holder,
    get_or_create_delegate_stored g (to_hex_string e.from_delegate) s p h.previous,
    get_or_create_delegate_stored g (to_hex_string e.to_delegate) s n h.next,
  )

  -- Between two different delegates that are stored, with the holder's account, the previous one has
  -- one holder less and the new one has one more, modulo 2 ^ 32; every noun of the holder is
  -- represented by the new delegate and not by the previous one; and the previous one represents
  -- every other noun as before.
  pub handle_delegate_changed_moves :
      (e : DelegateChanged) (s : Store g) (a : Account) (p n : Delegate)
      → Names e s a p n
      → to_hex_string e.from_delegate ≢ to_hex_string e.to_delegate
      → (p' : Delegate) × (n' : Delegate) × (load
            (to_hex_string e.from_delegate)
            (handle_delegate_changed g e s).delegates
          ≡ some p')
        × (load (to_hex_string e.to_delegate) (handle_delegate_changed g e s).delegates ≡ some n')
        × (incr32 p'.token_holders_represented_amount
            ≡ p.token_holders_represented_amount % 4294967296)
        × (n'.token_holders_represented_amount ≡ incr32 n.token_holders_represented_amount)
        × ((k : Text)
            → includes k a.nouns ≡ true
            → (includes k n'.nouns_represented ≡ true) × (includes k p'.nouns_represented ≡ false))
        × ((k : Text)
            → includes k a.nouns ≡ false
            → includes k p'.nouns_represented ≡ includes k p.nouns_represented)
  handle_delegate_changed_moves e s a p n h other = (
    leave_delegate a.nouns p,
    join_delegate a.nouns n,
    rw (delegates_after e s a p n h) (
        ground (
          arith,
          h.previous_id,
          h.next_id,
          load_save n.id (to_hex_string e.from_delegate) (join_delegate a.nouns n)
              (save p.id (leave_delegate a.nouns p) s.delegates),
          load_save p.id (to_hex_string e.from_delegate) (leave_delegate a.nouns p) s.delegates,
          text_eq_iff n.id (to_hex_string e.from_delegate),
          text_eq_iff p.id (to_hex_string e.from_delegate),
        )),
    rw (delegates_after e s a p n h) (
        rw (← h.next_id) (
          load_save_self g n.id (join_delegate a.nouns n)
            (save p.id (leave_delegate a.nouns p) s.delegates))),
    omega arith,
    refl,
    (λ k q. (
      ground (arith, includes-append k n.nouns_represented a.nouns),
      includes-without_all k a.nouns p.nouns_represented q,
    )),
    (λ k q. includes-without_all_other k a.nouns p.nouns_represented q),
  )

  -- Where both delegates of the event are one that is stored, as they are when a holder delegates
  -- again to the same account, the delegate afterwards counts one holder more than before, modulo
  -- 2 ^ 32, and lists the holder's nouns once more.
  pub handle_delegate_changed_same :
      (e : DelegateChanged) (s : Store g) (a : Account) (n : Delegate)
      → Names e s a n n
      → to_hex_string e.from_delegate ≡ to_hex_string e.to_delegate
      → load (to_hex_string e.to_delegate) (handle_delegate_changed g e s).delegates
        ≡ some (record n {
          token_holders_represented_amount = incr32 n.token_holders_represented_amount;
          nouns_represented = n.nouns_represented ++ a.nouns;
        })
  handle_delegate_changed_same e s a n h same = rw (delegates_after e s a n n h) (
      rw (← h.next_id) (
        load_save_self g n.id (join_delegate a.nouns n)
          (save n.id (leave_delegate a.nouns n) s.delegates)))
