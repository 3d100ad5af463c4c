-- ===== src/Gaps.antt =====
-- management/commands/backfill_blocks_v1.py: the gaps of a block range.
pub mod Laws
pub mod Roundtrip
pub mod Cover
use abstract_block_dumper.Prelude.{
  ℕ, suc, ◌+◌, ◌-◌, Bool, true, false, Option, none, some, List, ◌∷◌, [], ◌++◌,
}
use abstract_block_dumper.Backfill.{block_range}

-- The missing blocks from `start` to `end`, both included.
pub record Gap : Type 0 where
  pub start : ℕ
  pub end : ℕ

-- `end - start + 1`
unfoldable pub size : Gap → ℕ
size g = suc g.end - g.start

-- `sum(gap.size for gap in gaps)`
unfoldable pub total_missing : List Gap → ℕ
unfolding size
total_missing [] = 0
total_missing (g ∷ rest) = size g + total_missing rest

-- `gap_start` after a block that is processed, or not.
abbrev pub next_start : Option ℕ → ℕ → Bool → Option ℕ
next_start start block true = none
next_start none block false = some block
next_start (some start) block false = some start

-- What a processed block appends.
abbrev pub closed_gap : Option ℕ → ℕ → Bool → List Gap
closed_gap (some start) block true = record { start = start; end = block - 1 } ∷ []
closed_gap _ block processed = []

-- The gap at the end.
abbrev pub last_gap : Option ℕ → ℕ → List Gap
last_gap none to_block = []
last_gap (some start) to_block = record { start = start; end = to_block } ∷ []

-- The loop of `find_gaps` over the blocks that are left.
unfoldable pub scan : (ℕ → Bool) → ℕ → Option ℕ → List ℕ → List Gap
scan processed to_block start [] = last_gap start to_block
scan processed to_block start (block ∷ rest) =
    closed_gap start block (processed block)
    ++ scan processed to_block (next_start start block (processed block)) rest

unfoldable pub find_gaps : ℕ → ℕ → (ℕ → Bool) → List Gap
unfolding scan
find_gaps from_block to_block processed =
    scan processed to_block none (block_range from_block to_block)
