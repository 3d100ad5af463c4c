-- ===== src/BackfillScheduler/Ends.antt =====
-- _internal/services/backfill_scheduler.py: how a run over the blocks ends, and what it has processed.
use abstract_block_dumper.Prelude.{ℕ, ◌+◌, ◌≤◌, ◌<◌, ◌≡◌, Bool, true, false, not, List, any, length}
use abstract_block_dumper.Attempt.Database.{Database}
use abstract_block_dumper.BackfillScheduler.{Ending, completed, stopped, interrupted, pending}
use abstract_block_dumper.BackfillScheduler.Moments.{Progress, Moment}
use abstract_block_dumper.Settings.{Settings}

module _ {T : Type 0} (moments : ℕ → Moment T) where
  abbrev pub stops : List ℕ → Bool
  stops = any (λ b. not (moments b).is_running)

  abbrev pub interrupts : List ℕ → Bool
  interrupts = any (λ b. (moments b).interrupted)

  -- A run over the blocks, which began with `n` processed blocks.
  unfoldable pub EndsAfter : List ℕ → ℕ → Progress T × ℕ × Ending → Type 0
  EndsAfter blocks n (p, m, completed) =
      (m ≡ n + length blocks) × (stops blocks ≡ false) × (interrupts blocks ≡ false)
  EndsAfter blocks n (p, m, stopped) = (stops blocks ≡ true) × (n ≤ m) × (m < n + length blocks)
  EndsAfter blocks n (p, m, interrupted) =
      (interrupts blocks ≡ true) × (n < m) × (m ≤ n + length blocks)
  EndsAfter blocks n (p, m, pending) = (p.blocked ≡ true) × (n ≤ m) × (m < n + length blocks)
