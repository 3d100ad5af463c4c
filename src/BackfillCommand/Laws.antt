-- ===== src/BackfillCommand/Laws.antt =====
-- management/commands/backfill_blocks_v1.py: which blocks the gaps hold, and what is counted.
use abstract_block_dumper.Prelude.{ℕ, ◌+◌, ◌≤◌, ◌≡◌, Bool, true, Option, List, any, is_none}
use abstract_block_dumper.Numeric.{Value}
use abstract_block_dumper.Attempt.Database.{Database}
use abstract_block_dumper.BackfillCommand.{
  Session, GapsEnd, all_done, interrupted_between, head_unavailable, gate_waits,
}
use abstract_block_dumper.BackfillScheduler.{interrupted, start}
use abstract_block_dumper.Dispatch.{World}
use abstract_block_dumper.Gaps.{Gap, total_missing}
use abstract_block_dumper.Settings.{Settings}

module _ (db : Database) (s : Settings) (poll_seconds : Value) (chain : ℕ → Option ℕ) where
  open db use {Table}

  -- A pause between gaps was interrupted, or the chain had no head when a gap's backfill began.
  abbrev pub some_interrupted : (ℕ → Session Table) → List Gap → Bool
  some_interrupted sessions = any (λ g. (sessions g.start).interrupted)

  abbrev pub some_unavailable : (ℕ → Session Table) → List Gap → Bool
  some_unavailable sessions = any (λ g. is_none (chain (sessions g.start).now.local))

  -- The loop over the gaps, which began with `n` processed blocks.
  unfoldable pub EndsWith : (ℕ → Session Table) → List Gap → ℕ → World db × ℕ × GapsEnd → Type 0
  EndsWith sessions gaps n (w, m, all_done) = m ≡ n + total_missing gaps
  EndsWith sessions gaps n (w, m, interrupted_between) = some_interrupted sessions gaps ≡ true
  EndsWith sessions gaps n (w, m, head_unavailable) = some_unavailable sessions gaps ≡ true
  EndsWith sessions gaps n (w, m, gate_waits) = m ≤ n + total_missing gaps
