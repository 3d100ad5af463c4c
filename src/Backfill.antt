-- ===== src/Backfill.antt =====
-- _internal/services/queue_backfiller.py and window_backfiller.py: the blocks of a range that a task
-- has not executed are submitted.
--
-- `QueueBackfiller` serves the tasks of a `BlockDumper`, `WindowBackfiller` the others. An exception
-- leaves the messages sent before it. A pass reads the clocks once.
pub mod Queued
pub mod Window
pub mod Skips
use abstract_block_dumper.Prelude.{
  ℕ, zero, suc, ◌+◌, ◌-◌, String, Bool, true, false, not, ◌&&◌, ◌||◌, Option, none, some, List, ◌∷◌,
  [], ltb, if◌then◌else◌, Result, returned, raises,
}
use abstract_block_dumper.Numeric.{Value}
use abstract_block_dumper.Queue.{Queue}
use abstract_block_dumper.Attempt.Database.{Database}
use abstract_block_dumper.BlockTask.{executed_block_numbers, inflight_block_numbers}
use abstract_block_dumper.Dispatch.{World}
use abstract_block_dumper.Registry.Items.{RegistryItem, Target, named, policy}
use abstract_block_dumper.Throttle.{Gate}

-- `range(from, from + n)`
abbrev pub blocks_from : ℕ → ℕ → List ℕ
blocks_from from zero = []
blocks_from from (suc n) = from ∷ blocks_from (suc from) n

-- `range(from, to + 1)`
abbrev pub block_range : ℕ → ℕ → List ℕ
block_range from to = blocks_from from (suc to - from)

-- `(head - block) > archive_threshold`
abbrev pub beyond_archive : ℕ → ℕ → ℕ → Bool
beyond_archive archive_threshold head block = ltb archive_threshold (head - block)

-- What a pass over blocks came to: the number of submissions, or an exception.
pub data Pass : Type 0 where
  submitted : ℕ → Pass
  aborted : Pass

abbrev pub one_more : Bool → ℕ → ℕ
one_more true n = suc n
one_more false n = n

-- The rest of a loop, after one submission that answered or raised.
unfoldable pub after_block : {S : Type 0} → S × Result Bool → ℕ → (ℕ → S → S × Pass) → S × Pass
after_block (st, raises) n rest = (st, aborted)
after_block (st, returned b) n rest = rest (one_more b n) st

-- The rest of a loop, after a pass.
unfoldable pub after_pass : {S : Type 0} → S × Pass → (ℕ → S → S × Pass) → S × Pass
after_pass (st, aborted) rest = (st, aborted)
after_pass (st, submitted n) rest = rest n st

abbrev pub live_target : Option Queue → Option Target
live_target none = none
live_target (some q) = some (policy q)

-- Where a backfill of the task is sent.
abbrev pub backfill_target : RegistryItem → Option Target
backfill_target item = elim item.backfill_queue [
  | some target ↦ some target
  | none ↦ live_target item.live_queue
]

module _ (db : Database) where
  open db use {Table}

  -- The blocks of one task and argument set that are executed or in flight, read from `t`.
  abbrev pub skip_blocks : Table → RegistryItem → String → ℕ → ℕ → ℕ → Bool
  skip_blocks t item args from to block =
      executed_block_numbers db t item.executable_path args from (suc to) block
      || inflight_block_numbers db t item.executable_path args from (suc to) block
