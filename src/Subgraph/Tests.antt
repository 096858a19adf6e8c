-- ===== src/Subgraph/Tests.antt =====
-- Runs of the index's handlers on a store in memory (packages/nouns-subgraph/src).
use sznouns.Prelude.{
  ℕ, ◌≡◌, ◌≢◌, refl, true, false, Option, none, some, List, [], ◌∷◌, arith, Text, text_eq,
  text_eq_iff, codes, if◌then◌else◌,
}
use sznouns.Prelude.Int.{pos}
use sznouns.Sdk.Hex.{to_padded_hex}
use sznouns.Sdk.Svg.Print.{decimal}
use sznouns.Subgraph.Graph.{IsKeyed}
use sznouns.Subgraph.Entities.{Account, Auction, Delegate, Store}
use sznouns.Subgraph.Memory.{memory, look, address, empty_store}
use sznouns.Subgraph.Auctions.Bids.{
  AuctionEvent, bid, extended, settled, handle_all, apply_event, apply_all, handle_all-load,
  IsIndexed,
}
use sznouns.Subgraph.Entities.{Proposal, pending}
use sznouns.Subgraph.Helpers.{
  new_account, new_delegate, new_proposal, zero_address, get_governance_entity,
}
use sznouns.Subgraph.Governance.{VoteCast}
use sznouns.Subgraph.Governance.Tally.{
  Tally, with_tally, count_all, handle_votes, handle_votes-load, HasProposals,
}
use sznouns.Subgraph.Tokens.{
  DelegateChanged, Transfer, handle_delegate_changed, handle_transfer, includes, incr32,
}
use sznouns.Subgraph.Tokens.Delegation.{
  Names, handle_delegate_changed_moves, handle_delegate_changed_same,
}
use sznouns.Subgraph.Tokens.Transfers.{Holders, sent, times, received, handle_transfer_moves}
use sznouns.Subgraph.Tokens.Counts.{handle_transfer_mint}

-- What a run computes through.
runs : Unit {0}
unfolding look text_eq decimal to_padded_hex apply_event apply_all
runs = tt

abbrev auction_of : Text → Auction
auction_of id = record {
  id = id;
  noun = id;
  amount = pos 0;
  start_time = pos 10;
  end_time = pos 20;
  bidder = none;
  settled = false;
}

abbrev with_auction : Store memory
with_auction = record empty_store { auctions = (codes "7", auction_of (codes "7")) ∷ [] }

with_auction-IsIndexed : IsIndexed memory with_auction
unfolding look
with_auction-IsIndexed = record {
  auctions = record { own_id = λ k v e. ground (arith, text_eq_iff (codes "7") k) };
  accounts = record { own_id = λ k v e. cc };
}

abbrev bid_on : ℕ → ℕ → ℕ → AuctionEvent
bid_on noun sender value = bid (record {
  noun_id = noun;
  sender = sender;
  value = pos value;
  transaction_hash = codes "t";
  transaction_index = pos 0;
  block_number = pos 1;
  block_timestamp = pos 11;
})

-- Two bids on noun 7, one on a noun that has no auction, an extension and the settlement.
abbrev busy : List AuctionEvent
busy =
    bid_on 7 1 5
    ∷ bid_on 8 3 9
    ∷ bid_on 7 2 6
    ∷ extended (record { noun_id = 7; end_time = pos 30 })
    ∷ settled (record { noun_id = 7 })
    ∷ []

handle_all-load_example :
    look (codes "7") (handle_all memory busy with_auction).auctions
    ≡ some (record (auction_of (codes "7")) {
      amount = pos 6;
      end_time = pos 30;
      bidder = some (address 2);
      settled = true;
    })
unfolding runs
handle_all-load_example =
    handle_all-load memory busy with_auction (codes "7") (auction_of (codes "7"))
      with_auction-IsIndexed refl

-- A proposal with no votes yet.
abbrev untouched : Tally
untouched = record { against = pos 0; favour = pos 0; abstain = pos 0; status = pending }

abbrev with_proposal : Store memory
with_proposal = record empty_store {
  proposals = (codes "1", with_tally untouched (new_proposal (codes "1"))) ∷ [];
}

abbrev vote : ℕ → ℕ → ℕ → VoteCast
vote voter support votes = record {
  voter = voter;
  proposal_id = 1;
  support = support;
  votes = pos votes;
  reason = [];
}

abbrev ballots : List VoteCast
ballots = vote 1 1 3 ∷ vote 2 0 2 ∷ vote 3 1 4 ∷ []

with_proposal-HasProposals : HasProposals memory with_proposal ballots
unfolding look text_eq decimal
with_proposal-HasProposals =
    let one = new_proposal (codes "1") in
    ((one, untouched, refl), ((one, untouched, refl), ((one, untouched, refl), tt)))

with_proposal-IsKeyed : IsKeyed memory (λ (p : Proposal). p.id) with_proposal.proposals
unfolding look
with_proposal-IsKeyed = record { own_id = λ k v e. ground (arith, text_eq_iff (codes "1") k) }

handle_votes-load_example :
    (s : Store memory) × (handle_votes memory ballots with_proposal ≡ some s)
    × (look (codes "1") s.proposals
        ≡ some (
            with_tally (count_all memory (codes "1") ballots untouched) (new_proposal (codes "1"))))
unfolding look text_eq
handle_votes-load_example =
    handle_votes-load memory ballots with_proposal (codes "1") (new_proposal (codes "1")) untouched
      with_proposal-IsKeyed with_proposal-HasProposals refl

-- Account 1 holds noun 5 and delegates to account 2.
abbrev holder : Account
holder = record (new_account (address 1)) {
  delegate = some (address 2);
  token_balance_raw = pos 1;
  token_balance = pos 1;
  nouns = codes "5" ∷ [];
}

abbrev second : Delegate
second = record (new_delegate (address 2)) {
  token_holders_represented_amount = 1;
  nouns_represented = codes "5" ∷ [];
}

abbrev delegated : Store memory
delegated = record empty_store {
  accounts = (address 1, holder) ∷ (address 3, new_account (address 3)) ∷ [];
  delegates = (address 2, second) ∷ (address 3, new_delegate (address 3)) ∷ [];
}

abbrev to_third : DelegateChanged
to_third = record { delegator = 1; from_delegate = 2; to_delegate = 3 }

abbrev to_second : DelegateChanged
to_second = record { delegator = 1; from_delegate = 2; to_delegate = 2 }

to_third-Names : Names memory to_third delegated holder second (new_delegate (address 3))
unfolding look text_eq to_padded_hex
to_third-Names = record {
  holder = refl;
  holder_id = refl;
  previous = refl;
  previous_id = refl;
  next = refl;
  next_id = refl;
}

to_second-Names : Names memory to_second delegated holder second second
unfolding look text_eq to_padded_hex
to_second-Names = record {
  holder = refl;
  holder_id = refl;
  previous = refl;
  previous_id = refl;
  next = refl;
  next_id = refl;
}

different : (s t : Text) → text_eq s t ≡ false → s ≢ t
different s t h e = let same = (text_eq_iff s t).1 e in cc

apart : address 2 ≢ address 3
unfolding to_padded_hex text_eq
apart = different (address 2) (address 3) refl

handle_delegate_changed_moves_example :
    (p n : Delegate) × (look
        (address 2)
        (handle_delegate_changed memory to_third delegated).delegates
      ≡ some p)
    × (look (address 3) (handle_delegate_changed memory to_third delegated).delegates ≡ some n)
    × (incr32 p.token_holders_represented_amount ≡ 1)
    × (n.token_holders_represented_amount ≡ 1)
    × ((k : Text)
        → includes k (codes "5" ∷ []) ≡ true
        → (includes k n.nouns_represented ≡ true) × (includes k p.nouns_represented ≡ false))
    × ((k : Text)
        → includes k (codes "5" ∷ []) ≡ false
        → includes k p.nouns_represented ≡ includes k (codes "5" ∷ []))
handle_delegate_changed_moves_example =
    handle_delegate_changed_moves memory to_third delegated holder second (new_delegate (address 3))
      to_third-Names apart

handle_delegate_changed_same_example :
    look (address 2) (handle_delegate_changed memory to_second delegated).delegates
    ≡ some (record (new_delegate (address 2)) {
      token_holders_represented_amount = 2;
      nouns_represented = codes "5" ∷ codes "5" ∷ [];
    })
handle_delegate_changed_same_example =
    handle_delegate_changed_same memory to_second delegated holder second to_second-Names refl

abbrev fifth : Transfer
fifth = record { «from» = 1; to = 3; token_id = 5 }

fifth-Holders : Holders memory fifth delegated holder (new_account (address 3))
unfolding look text_eq to_padded_hex zero_address
fifth-Holders = record {
  sender = refl;
  sender_id = refl;
  receiver = refl;
  receiver_id = refl;
  other = different (address 1) (address 3) refl;
  not_minted = refl;
  not_burnt = refl;
}

handle_transfer_moves_example :
    (c d : Option Text) × (kept : List Text) × (look
        (address 1)
        (handle_transfer memory fifth delegated).accounts
      ≡ some (sent memory kept holder c))
    × ((other : Text)
        → times other kept ≡ (if text_eq other (codes "5") then 0 else times other holder.nouns))
    × (look (address 3) (handle_transfer memory fifth delegated).accounts
        ≡ some (received memory (codes "5") (new_account (address 3)) d))
unfolding decimal
handle_transfer_moves_example =
    handle_transfer_moves memory fifth delegated holder (new_account (address 3)) fifth-Holders

-- Noun 5 is minted to account 1, which has none and no delegate.
abbrev before_mint : Store memory
before_mint = record empty_store {
  accounts = (address 0, new_account (address 0)) ∷ (address 1, new_account (address 1)) ∷ [];
}

abbrev minting : Transfer
minting = record { «from» = 0; to = 1; token_id = 5 }

handle_transfer_mint_example :
    (d : Delegate) × (look (address 1) (handle_transfer memory minting before_mint).delegates
      ≡ some d)
    × ((get_governance_entity memory (handle_transfer memory minting before_mint)).total_delegates
        ≡ pos 0)
unfolding look text_eq to_padded_hex zero_address get_governance_entity
handle_transfer_mint_example =
    handle_transfer_mint memory minting before_mint (new_account (address 0))
      (new_account (address 1)) refl refl refl refl refl refl
