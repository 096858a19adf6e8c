-- ===== src/Webapp/Display.antt =====
-- The auction on display (packages/nouns-webapp/src/state/slices/onDisplayAuction.ts). `none` is
-- undefined; the ids are those of nouns.
use sznouns.Prelude.{
  ℕ, ◌+◌, ◌-◌, ◌≤◌, ◌≡◌, refl, ◌∙◌, ap, Bool, true, false, Option, none, some, List, [], ◌∷◌, ◌==◌,
  arith, if◌then◌else◌, Bool-cases, inl, inr,
}

pub record OnDisplayAuctionState : Type 0 where
  pub last_auction_noun_id : Option ℕ
  pub on_display_auction_noun_id : Option ℕ

unfoldable pub set_last_auction_noun_id : ℕ → OnDisplayAuctionState → OnDisplayAuctionState
set_last_auction_noun_id n s = record s { last_auction_noun_id = some n }

unfoldable pub set_on_display_auction_noun_id : ℕ → OnDisplayAuctionState → OnDisplayAuctionState
set_on_display_auction_noun_id n s = record s { on_display_auction_noun_id = some n }

unfoldable pub set_prev_on_display_auction_noun_id : OnDisplayAuctionState → OnDisplayAuctionState
set_prev_on_display_auction_noun_id s = elim s.on_display_auction_noun_id [
  | none ↦ s
  | some n ↦ if n == 0 then s else record s { on_display_auction_noun_id = some (n - 1) }
]

-- `===` on ids that may be undefined.
abbrev pub same_id : Option ℕ → Option ℕ → Bool
same_id none none = true
same_id (some a) (some b) = a == b
same_id _ _ = false

unfoldable pub set_next_on_display_auction_noun_id : OnDisplayAuctionState → OnDisplayAuctionState
set_next_on_display_auction_noun_id s = elim s.on_display_auction_noun_id [
  | none ↦ s
  | some n ↦
      if same_id s.last_auction_noun_id (some n)
      then s
      else record s { on_display_auction_noun_id = some (n + 1) }
]

pub data Move : Type 0 where
  prev next : Move
  -- A new auction, which is never of a lower id.
  last_up : ℕ → Move

unfoldable pub move : Move → OnDisplayAuctionState → OnDisplayAuctionState
move prev s = set_prev_on_display_auction_noun_id s
move next s = set_next_on_display_auction_noun_id s
move (last_up k) s = elim s.last_auction_noun_id [
  | none ↦ s
  | some n ↦ set_last_auction_noun_id (n + k) s
]

unfoldable pub moves : List Move → OnDisplayAuctionState → OnDisplayAuctionState
moves [] s = s
moves (m ∷ ms) s = moves ms (move m s)

abbrev pub shown : ℕ → ℕ → OnDisplayAuctionState
shown last n = record { last_auction_noun_id = some last; on_display_auction_noun_id = some n }

move-shown :
    (m : Move) (last n : ℕ)
    → n ≤ last
    → (last' : ℕ) × (n' : ℕ) × (n' ≤ last') × (move m (shown last n) ≡ shown last' n')
unfolding move set_prev_on_display_auction_noun_id set_next_on_display_auction_noun_id
    set_last_auction_noun_id
move-shown prev last n h = (
  last,
  n - 1,
  omega arith,
  elim (Bool-cases (n == 0)) [ inl zero_id ↦ ground arith | inr positive ↦ ground arith ],
)
move-shown next last n h = elim (Bool-cases (last == n)) [
  | inl at ↦ (last, n, h, ground arith)
  | inr before ↦ (last, n + 1, ground arith, ground arith)
]
move-shown (last_up k) last n h = (last + k, n, omega arith, refl)

-- If the auction on display is not above the last one, then after any steps backward and forward, and
-- any later auctions, there is an auction on display, and it is not above the last one.
pub moves-shown :
    (ms : List Move) (last n : ℕ)
    → n ≤ last
    → (last' : ℕ) × (n' : ℕ) × (n' ≤ last') × (moves ms (shown last n) ≡ shown last' n')
unfolding moves
moves-shown [] last n h = (last, n, h, refl)
moves-shown (m ∷ ms) last n h =
    let (last', n', h', e) = move-shown m last n h in
    let (last'', n'', h'', e') = moves-shown ms last' n' h' in
    (last'', n'', h'', ap (moves ms) e ∙ e')
