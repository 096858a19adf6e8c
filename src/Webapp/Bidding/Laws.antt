-- ===== src/Webapp/Bidding/Laws.antt =====
-- The bids of packages/nouns-webapp/src/components/Bid/index.tsx against what `createBid` of
-- packages/nouns-contracts/contracts/NounsAuctionHouse.sol requires.
use sznouns.Prelude.{
  ℕ, ◌+◌, ◌*◌, ◌/◌, ◌≤◌, ◌<◌, ◌≡◌, ◌⊎◌, refl, sym, ap, ◌∙◌, Bool, false, ◌&&◌, Option, none, some,
  some_eq, Option-cases, [], ◌∷◌, arith, ltb, leb, ◌==◌, Bool-cases, inl, inr, Text, codes,
}
use sznouns.Prelude.Int.{ℤ, pos, negsuc, ltb_ℤ}
use sznouns.Webapp.Auction.{Auction}
use sznouns.Webapp.Bidding.{
  cent, ceil_to_cents, exponent_at, EtherTexts, compute_minimum_next_bid, min_bid_eth, check_bid,
  current_bid, place_bid_handler, BidStep, ignored, insufficient, placed,
}

-- The least value that the contract takes above a bid.
abbrev pub required_bid : ℕ → ℕ → ℕ
required_bid amount percentage = amount + amount * percentage / 100

minimum_bounds :
    (amount percentage : ℕ)
    → (required_bid amount percentage ≤ compute_minimum_next_bid amount (some percentage))
      × (compute_minimum_next_bid amount (some percentage) ≤ required_bid amount percentage + 1)
unfolding compute_minimum_next_bid
minimum_bounds amount percentage =
    let e : amount * (percentage + 100) ≡ amount * percentage + amount * 100 = grind arith in
    omega (arith, e)

ceil_to_cents-le : (wei : ℕ) → wei ≤ ceil_to_cents wei
ceil_to_cents-le wei = omega arith

ceil_to_cents-lt : (wei : ℕ) → ceil_to_cents wei < wei + cent
ceil_to_cents-lt wei = omega arith

-- What `createBid` requires of a value: the reserve price and the increment above the current bid.
abbrev pub contract_takes : ℕ → ℕ → ℕ → ℕ → Bool
contract_takes reserve_price amount percentage value =
    leb reserve_price value && leb (required_bid amount percentage) value

taken :
    (reserve_price amount percentage value : ℕ)
    → required_bid amount percentage ≤ value
    → contract_takes reserve_price amount percentage value ≡ leb reserve_price value
taken reserve_price amount percentage value h = ground arith

module _ (e : EtherTexts) (auction : Auction) (percentage reserve_price : ℕ) where
  open e use {
    format_ether, parse_ether, to_fixed_2_ceil, parse_fixed_format, parse_cent, parse_empty,
  }

  abbrev minimum : ℕ
  minimum = compute_minimum_next_bid auction.amount (some percentage)

  -- A value that the contract takes unless it is below the reserve price.
  abbrev pub IsTaken : ℕ → Type 0
  IsTaken value =
      contract_takes reserve_price auction.amount percentage value ≡ leb reserve_price value

  -- An exception: the input is no amount, or the contract requires a thousand ethers or, by rounding, at
  -- most one wei less.
  abbrev pub IsException : Text → Type 0
  IsException input =
      (parse_ether input ≡ none) ⊎ (exponent_at ≤ required_bid auction.amount percentage + 1)

  -- What each step means for an input.
  abbrev pub IsRight : Text → Option BidStep → Type 0
  IsRight input none = IsException input
  IsRight input (some ignored) = input ≡ []
  IsRight input (some (insufficient text)) =
      (value : ℕ) × (place_bid_handler e (some auction) text (some percentage)
        ≡ some (placed auction.noun_id (pos value)))
      × IsTaken value
      × (value ≤ required_bid auction.amount percentage + cent)
  IsRight input (some (placed noun_id value)) =
      (wei : ℕ) × (value ≡ pos wei)
      × (noun_id ≡ auction.noun_id)
      × IsTaken wei
      × (parse_ether input ≡ some (pos wei))

  -- The text that the page sets stands for a value from the minimum on.
  suggested :
      (text : Text)
      → min_bid_eth e minimum ≡ some text
      → (value : ℕ) × (parse_ether text ≡ some (pos value))
        × (minimum ≤ value)
        × (value ≤ required_bid auction.amount percentage + cent)
  unfolding min_bid_eth
  suggested text h =
      let (low, high) = minimum_bounds auction.amount percentage in
      elim (Bool-cases (minimum == 0)) [
        | inl z ↦
            let same : codes "0.01" ≡ text = some_eq (sym (rw z refl) ∙ h) in
            (cent, ap parse_ether (sym same) ∙ parse_cent, ground arith, omega arith)
        | inr nz ↦ elim (Bool-cases (ltb minimum exponent_at)) [
          | inl small ↦
              let same : to_fixed_2_ceil (format_ether minimum) ≡ text =
                some_eq (sym (rw (nz, small) refl) ∙ h) in
              (
                ceil_to_cents minimum,
                ap parse_ether (sym same) ∙ parse_fixed_format minimum,
                ceil_to_cents-le minimum,
                omega (arith, ceil_to_cents-lt minimum),
              )
          | inr large ↦ let never : none ≡ some text = sym (rw (nz, large) refl) ∙ h in absurd cc
        ]
      ]

  no_text : min_bid_eth e minimum ≡ none → exponent_at ≤ minimum
  unfolding min_bid_eth
  no_text h = ground arith

  placed_suggestion :
      (text : Text) (value : ℕ)
      → parse_ether text ≡ some (pos value)
      → minimum ≤ value
      → place_bid_handler e (some auction) text (some percentage)
        ≡ some (placed auction.noun_id (pos value))
  unfolding place_bid_handler
  placed_suggestion [] value h le =
      let never : none ≡ some (pos value) = sym parse_empty ∙ h in absurd cc
  placed_suggestion (c ∷ t) value h le =
      ap (check_bid e auction minimum) h
      ∙ (let enough : ltb_ℤ (pos value) (pos minimum) ≡ false = ground arith in rw enough refl)

  placed_value :
      (input : Text) (value : ℤ)
      → parse_ether input ≡ some value
      → ltb_ℤ value (pos minimum) ≡ false
      → IsRight input (some (placed auction.noun_id value))
  placed_value input (negsuc n) h enough = absurd (ground arith)
  placed_value input (pos wei) h enough =
      let (low, high) = minimum_bounds auction.amount percentage in
      let le : minimum ≤ wei = ground arith in
      (wei, refl, refl, taken reserve_price auction.amount percentage wei (omega arith), h)

  check_bid-IsRight :
      (input : Text) (o : Option ℤ)
      → parse_ether input ≡ o
      → IsRight input (check_bid e auction minimum o)
  check_bid-IsRight input none h = inl h
  check_bid-IsRight input (some value) h =
      let (low, high) = minimum_bounds auction.amount percentage in
      elim (Bool-cases (ltb_ℤ value (pos minimum))) [
        | inl less ↦ elim (Option-cases (min_bid_eth e minimum)) [
          | inl fails ↦ rw (less, fails) (inr (omega (arith, no_text fails)))
          | inr (text, told) ↦
              let (raised, reads, enough, near) = suggested text told in
              rw (less, told)
                (
                  raised,
                  placed_suggestion text raised reads enough,
                  taken reserve_price auction.amount percentage raised (omega arith),
                  near,
                )
        ]
        | inr enough ↦ rw enough (placed_value input value h enough)
      ]

  -- An exception is only thrown for an input that is no amount, or where the contract requires a thousand
  -- ethers, up to a wei; no input is ignored; a bid is placed on the auction's noun with the value of the
  -- input, which the contract takes unless it is below the reserve price; after any other input the page sets
  -- one that is placed, with a value that the contract takes in the same way, and that is at most a hundredth
  -- of an ether above what the contract requires besides.
  pub place_bid_handler-IsRight :
      (input : Text) → IsRight input (place_bid_handler e (some auction) input (some percentage))
  unfolding place_bid_handler
  place_bid_handler-IsRight [] = refl
  place_bid_handler-IsRight (c ∷ t) = check_bid-IsRight (c ∷ t) (current_bid e (c ∷ t)) refl
