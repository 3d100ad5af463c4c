-- ===== src/Backfill/Queued.antt =====
-- _internal/services/queue_backfiller.py
pub mod Room
pub mod Bound
use abstract_block_dumper.Prelude.{
  ℕ, zero, suc, ◌+◌, String, Bool, true, false, Option, none, some, List, ◌∷◌, [], if◌then◌else◌,
  Result, returned, raises,
}
use abstract_block_dumper.Numeric.{Value}
use abstract_block_dumper.Queue.{Queue}
use abstract_block_dumper.Attempt.Database.{Database}
use abstract_block_dumper.Backfill.{
  block_range, beyond_archive, Pass, submitted, aborted, after_block, after_pass, backfill_target,
  skip_blocks,
}
use abstract_block_dumper.Dispatch.{
  Context, Sending, sent, not_sent, raised, World, target_queue, execute,
}
use abstract_block_dumper.Registry.Items.{RegistryItem, match_condition, get_execution_args}
use abstract_block_dumper.Settings.{Settings, Read, valid, value_error}
use abstract_block_dumper.Throttle.{Gate, Admission, admitted, refused, waiting, admit, spent}

module _ (db : Database) (s : Settings) (poll_seconds : Value) where
  open db use {Table}

  -- The state of a pass: the world, and the gate's view of it.
  abbrev pub State : Type 0
  State = World db × Gate Table

  -- The gate accounts for a message that went out.
  unfoldable pub settle : RegistryItem → Gate Table → World db × Sending → State × Result Bool
  unfolding spent
  settle item g (w, sent) = ((w, spent g (backfill_target item)), returned true)
  settle item g (w, not_sent) = ((w, g), returned false)
  settle item g (w, raised) = ((w, g), raises)

  -- The gate answered: the block is sent, or left. A gate that waits for ever never returns, and
  -- stands here as an exception.
  unfoldable pub submit_admitted :
      Context
      → ℕ
      → ℕ
      → RegistryItem
      → ℕ
      → String
      → World db
      → Read (Gate Table × Admission)
      → Gate Table
      → State × Result Bool
  unfolding settle
  submit_admitted ctx threshold head item block args w value_error g = ((w, g), raises)
  submit_admitted ctx threshold head item block args w (valid (g', waiting)) g = ((w, g'), raises)
  submit_admitted ctx threshold head item block args w (valid (g', refused)) g =
      ((w, g'), returned false)
  submit_admitted ctx threshold head item block args w (valid (g', admitted)) g = settle item g' (
      execute db ctx w item block args (beyond_archive threshold head block)
        (target_queue item.backfill_queue) (some head))

  -- The condition answered.
  unfoldable pub submit_matching :
      Context → ℕ → ℕ → RegistryItem → ℕ → String → State → Option Bool → State × Result Bool
  unfolding submit_admitted
  submit_matching ctx threshold head item block args st none = (st, raises)
  submit_matching ctx threshold head item block args st (some false) = (st, returned false)
  submit_matching ctx threshold head item block args (w, g) (some true) =
      submit_admitted ctx threshold head item block args w
        (admit db s poll_seconds ctx.now w.0 g (backfill_target item)) g

  -- `QueueBackfiller.submit_block`; `head` is the chain head when the block is sent.
  unfoldable pub submit_block :
      Context → ℕ → (ℕ → Bool) → ℕ → RegistryItem → ℕ → String → State → State × Result Bool
  unfolding submit_matching
  submit_block ctx threshold executed head item block args st =
      if executed block
      then (st, returned false)
      else submit_matching ctx threshold head item block args st (match_condition item block args)

  -- The loop over the blocks of one argument set; `n` were submitted before.
  unfoldable pub submit_blocks :
      Context → ℕ → (ℕ → Bool) → ℕ → RegistryItem → String → List ℕ → ℕ → State → State × Pass
  unfolding submit_block after_block
  submit_blocks ctx threshold executed head item args [] n st = (st, submitted n)
  submit_blocks ctx threshold executed head item args (block ∷ rest) n st =
      after_block (submit_block ctx threshold executed head item block args st) n
        (submit_blocks ctx threshold executed head item args rest)

  -- The loop over the argument sets.
  unfoldable pub submit_args :
      Context → ℕ → ℕ → RegistryItem → ℕ → ℕ → List String → ℕ → State → State × Pass
  unfolding submit_blocks after_pass
  submit_args ctx threshold head item from to [] n st = (st, submitted n)
  submit_args ctx threshold head item from to (args ∷ rest) n (w, g) =
      after_pass
        (submit_blocks ctx threshold (skip_blocks db w.0 item args from to) head item args
          (block_range from to) n (w, g))
        (submit_args ctx threshold head item from to rest)

  -- `QueueBackfiller.process_item_range`
  unfoldable pub process_item_range :
      Context → ℕ → RegistryItem → ℕ → ℕ → ℕ → World db → State × Pass
  unfolding submit_args
  process_item_range ctx threshold item from to head w =
      submit_args ctx threshold head item from to (get_execution_args item) 0
        (w, record { wait = false; free = []; looks = [] })
