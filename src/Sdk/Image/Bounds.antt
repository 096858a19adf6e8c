-- ===== src/Sdk/Image/Bounds.antt =====
-- The top and bottom bounds (packages/nouns-sdk/src/image/image.ts, `updateImageBounds`): they are
-- the first and the last row that is not blank, if row 0 is blank and the last row is row 31 or blank.
use sznouns.Prelude.{
  ℕ, zero, suc, ◌+◌, ◌-◌, ◌<◌, ◌≤◌, ◌≡◌, ◌≢◌, inl, inr, refl, true, false, Bool, arith, ◌==◌,
  if◌then◌else◌, Bool-cases,
}
use sznouns.Sdk.Image.{ImageBounds, update_vertical}

-- The bounds after `n` rows from `y` on, where `blank` tells the rows without pixels.
unfoldable pub vertical : (ℕ → Bool) → ℕ → ℕ → ImageBounds → ImageBounds
vertical blank zero y b = b
vertical blank (suc n) y b = vertical blank n (y + 1) (update_vertical (blank y) y b)

-- The rows from `i` on and below `n` are blank.
abbrev pub AllBlank : (ℕ → Bool) → ℕ → ℕ → Type 0
AllBlank blank i n = (j : ℕ) → i ≤ j → j < n → blank j ≡ true

-- What the bounds say after the rows below `y`.
pub data Vertical (blank : ℕ → Bool) (y : ℕ) (b : ImageBounds) : Type 0 where
  nothing : b.top ≡ 0 → b.bottom ≡ 0 → AllBlank blank 0 y → Vertical blank y b
  inside :
      0 < b.top
      → b.top < y
      → blank b.top ≡ false
      → AllBlank blank 0 b.top
      → b.bottom ≡ 0
      → blank (y - 1) ≡ false
      → y ≢ 32
      → Vertical blank y b
  closed :
      0 < b.top
      → b.top ≤ b.bottom
      → b.bottom < y
      → blank b.top ≡ false
      → AllBlank blank 0 b.top
      → AllBlank blank (b.bottom + 1) y
      → Vertical blank y b

AllBlank-extend :
    (blank : ℕ → Bool) (i y : ℕ) → AllBlank blank i y → blank y ≡ true → AllBlank blank i (y + 1)
AllBlank-extend blank i y h e j le lt = elim (Bool-cases (j == y)) [
  | inl same ↦ let at : j ≡ y = ground arith in rw at e
  | inr other ↦ h j le (ground arith)
]

module _ (blank : ℕ → Bool) (y : ℕ) (b : ImageBounds) where
  blank_step :
      blank y ≡ true → Vertical blank y b → Vertical blank (y + 1) (update_vertical true y b)
  unfolding update_vertical
  blank_step e (nothing top bottom none_above) =
      let same : update_vertical true y b ≡ b = ground arith in
      rw same (nothing top bottom (AllBlank-extend blank 0 y none_above e))
  blank_step e (inside pos lt first above bottom last ne) =
      let same : update_vertical true y b ≡ record b { bottom = y - 1 } = ground arith in
      rw same (
        closed pos (omega arith) (omega arith) first above
          (λ j le k. let at : j ≡ y = omega arith in rw at e))
  blank_step e (closed pos le lt first above below) =
      let same : update_vertical true y b ≡ b = ground arith in
      rw same
        (closed pos le (omega arith) first above (AllBlank-extend blank (b.bottom + 1) y below e))

  -- A row with pixels, at the top bound or below it.
  full_at :
      (top : ℕ)
      → 0 < top
      → top ≤ y
      → blank top ≡ false
      → AllBlank blank 0 top
      → blank y ≡ false
      → Vertical blank (y + 1) (
          if y == 31
          then record b { top = top; bottom = y }
          else record b { top = top; bottom = 0 })
  full_at top pos le first above e = elim (Bool-cases (y == 31)) [
    | inl last ↦ rw last (closed pos le (omega arith) first above (λ j l k. absurd (omega arith)))
    | inr more ↦
        let same : y + 1 - 1 ≡ y = omega arith in
        rw more (inside pos (omega arith) first above refl (rw same e) (λ q. absurd (ground arith)))
  ]

  full_step :
      blank y ≡ false
      → (y ≡ 0 → blank y ≡ true)
      → Vertical blank y b
      → Vertical blank (y + 1) (update_vertical false y b)
  unfolding update_vertical
  full_step e start (nothing top bottom above) =
      let pos : 0 < y = ground arith in
      let same : update_vertical false y b ≡ (
          if y == 31 then record b { top = y; bottom = y } else record b { top = y; bottom = 0 }) =
        ground arith in
      rw same (full_at y pos (omega arith) e above e)
  full_step e start (inside pos lt first above bottom last ne) =
      let same : update_vertical false y b ≡ (
          if y == 31
          then record b { top = b.top; bottom = y }
          else record b { top = b.top; bottom = 0 }) =
        ground arith in
      rw same (full_at b.top pos (omega arith) first above e)
  full_step e start (closed pos le lt first above below) =
      let same : update_vertical false y b ≡ (
          if y == 31
          then record b { top = b.top; bottom = y }
          else record b { top = b.top; bottom = 0 }) =
        ground arith in
      rw same (full_at b.top pos (omega arith) first above e)

  Vertical-step :
      (y ≡ 0 → blank y ≡ true)
      → Vertical blank y b
      → Vertical blank (y + 1) (update_vertical (blank y) y b)
  Vertical-step start v = elim (Bool-cases (blank y)) [
    | inl e ↦ rw e (blank_step e v)
    | inr e ↦ rw e (full_step e start v)
  ]

pub vertical-Vertical :
    (blank : ℕ → Bool) (n y : ℕ) (b : ImageBounds)
    → blank 0 ≡ true
    → Vertical blank y b
    → Vertical blank (y + n) (vertical blank n y b)
unfolding vertical
vertical-Vertical blank zero y b start v = let e : y ≡ y + 0 = omega arith in rw (← e) v
vertical-Vertical blank (suc n) y b start v =
    let e : y + 1 + n ≡ y + suc n = omega arith in
    rw (← e) (
      vertical-Vertical blank n (y + 1) (update_vertical (blank y) y b) start
        (Vertical-step blank y b (λ q. rw q start) v))

-- The left and right bounds are left alone.
pub vertical_sides :
    (blank : ℕ → Bool) (n y : ℕ) (b : ImageBounds)
    → ((vertical blank n y b).left ≡ b.left) × ((vertical blank n y b).right ≡ b.right)
unfolding vertical update_vertical
vertical_sides blank zero y b = (refl, refl)
vertical_sides blank (suc n) y b =
    ground (arith, vertical_sides blank n (y + 1) (update_vertical (blank y) y b))
