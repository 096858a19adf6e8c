-- ===== src/Webapp/Logs/Ranges.antt =====
-- The ranges of blocks that packages/nouns-webapp/src/state/updaters/logs.ts fetches.
use sznouns.Prelude.{
  ℕ, zero, suc, ◌+◌, ◌-◌, ◌%◌, ◌≤◌, ◌<◌, ◌≡◌, refl, ◌&&◌, some, List, [], ◌∷◌, arith, leb, ltb,
  ◌==◌, if◌then◌else◌, Bool-cases, inl, inr, min,
}
use sznouns.Webapp.Logs.Updater.{Range, ranges_from, ranges, max_blocks_per_call}

-- The ranges that a block is in.
abbrev pub times_fetched : ℕ → List Range → ℕ
times_fetched b [] = 0
times_fetched b (r ∷ rs) =
    if leb r.from_block b && leb b r.to_block then suc (times_fetched b rs) else times_fetched b rs

-- Once for a block from the first to the last, and once more for each later start of a range.
abbrev pub expected_times : ℕ → ℕ → ℕ → ℕ
expected_times from_block block_number b =
    if leb from_block b && leb b block_number
    then if ltb from_block b && (b - from_block) % 1000000 == 0 then 2 else 1
    else 0

-- A first range before others.
times_step :
    (from_block block_number b : ℕ)
    → from_block ≤ block_number
    → (if leb from_block b && leb b (min (from_block + max_blocks_per_call) block_number)
        then suc (expected_times (from_block + max_blocks_per_call) block_number b)
        else expected_times (from_block + max_blocks_per_call) block_number b)
      ≡ expected_times from_block block_number b
times_step from_block block_number b h = ground arith

ranges_from-times :
    (fuel from_block block_number : ℕ)
    → 0 < fuel
    → block_number + 1 < fuel + from_block
    → (rs : List Range) × (ranges_from fuel from_block block_number ≡ some rs)
      × ((b : ℕ) → times_fetched b rs ≡ expected_times from_block block_number b)
unfolding ranges_from
ranges_from-times zero from_block block_number pos h = absurd (omega arith)
ranges_from-times (suc fuel) from_block block_number pos h =
    elim (Bool-cases (leb from_block block_number)) [
      | inr over ↦ ([], rw (over, ranges_from) refl, λ b. ground arith)
      | inl more ↦
          let le : from_block ≤ block_number = ground arith in
          let next = from_block + max_blocks_per_call in
          let (rs, e, times) =
            ranges_from-times fuel next block_number (omega arith) (omega arith) in
          let first : Range = record {
            from_block = from_block;
            to_block = min next block_number;
          } in
          (
            first ∷ rs,
            rw (more, ranges_from, e) refl,
            λ b. rw (times b) (times_step from_block block_number b le),
          )
    ]

-- From any first block the loop ends, and every block from it to the last one is fetched; the blocks at
-- each later start of a range are fetched twice, the others once, and blocks outside never.
pub ranges-times :
    (from_block block_number : ℕ)
    → (rs : List Range) × (ranges from_block block_number ≡ some rs)
      × ((b : ℕ) → times_fetched b rs ≡ expected_times from_block block_number b)
unfolding ranges
ranges-times from_block block_number =
    ranges_from-times (block_number + 2) from_block block_number (omega arith) (omega arith)
