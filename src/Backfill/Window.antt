-- ===== src/Backfill/Window.antt =====
-- _internal/services/window_backfiller.py: the blocks of tasks that `@block_task` declares.
pub mod Laws
use abstract_block_dumper.Prelude.{
  ℕ, zero, suc, ◌+◌, String, Bool, true, false, Option, none, some, List, ◌∷◌, [], if◌then◌else◌,
  Result, returned, raises,
}
use abstract_block_dumper.Attempt.Database.{Database}
use abstract_block_dumper.Backfill.{
  block_range, beyond_archive, Pass, submitted, aborted, after_block, after_pass, skip_blocks,
}
use abstract_block_dumper.BlockTask.Executor.{execute}
use abstract_block_dumper.Dispatch.{Context, Sending, sent, not_sent, raised, World}
use abstract_block_dumper.Registry.Items.{
  RegistryItem, Target, named, policy, match_condition, get_execution_args,
}

-- The queue name of a submission; a `Queue` is given only to tasks that `QueueBackfiller` serves.
abbrev pub queue_name : Option Target → Option String
queue_name none = none
queue_name (some (named name)) = some name
queue_name (some (policy q)) = some q.name

module _ (db : Database) where
  -- The executor does not say whether it sent a message: the block counts as submitted.
  unfoldable pub count_submitted : World db × Sending → World db × Result Bool
  count_submitted (w, raised) = (w, raises)
  count_submitted (w, _) = (w, returned true)

  -- The condition answered.
  unfoldable pub submit_matching :
      Context → ℕ → ℕ → RegistryItem → ℕ → String → World db → Option Bool → World db × Result Bool
  unfolding count_submitted
  submit_matching ctx threshold head item block args w none = (w, raises)
  submit_matching ctx threshold head item block args w (some false) = (w, returned false)
  submit_matching ctx threshold head item block args w (some true) = count_submitted (
      execute db ctx w item block args (beyond_archive threshold head block)
        (queue_name item.backfill_queue))

  -- `WindowBackfiller.submit_block`
  unfoldable pub submit_block :
      Context → ℕ → (ℕ → Bool) → ℕ → RegistryItem → ℕ → String → World db → World db × Result Bool
  unfolding submit_matching
  submit_block ctx threshold executed head item block args w =
      if executed block
      then (w, returned false)
      else submit_matching ctx threshold head item block args w (match_condition item block args)

  unfoldable pub submit_blocks :
      Context → ℕ → (ℕ → Bool) → ℕ → RegistryItem → String → List ℕ → ℕ → World db → World db × Pass
  unfolding submit_block after_block
  submit_blocks ctx threshold executed head item args [] n w = (w, submitted n)
  submit_blocks ctx threshold executed head item args (block ∷ rest) n w =
      after_block (submit_block ctx threshold executed head item block args w) n
        (submit_blocks ctx threshold executed head item args rest)

  unfoldable pub submit_args :
      Context → ℕ → ℕ → RegistryItem → ℕ → ℕ → List String → ℕ → World db → World db × Pass
  unfolding submit_blocks after_pass
  submit_args ctx threshold head item from to [] n w = (w, submitted n)
  submit_args ctx threshold head item from to (args ∷ rest) n w =
      after_pass
        (submit_blocks ctx threshold (skip_blocks db w.0 item args from to) head item args
          (block_range from to) n w)
        (submit_args ctx threshold head item from to rest)

  -- `WindowBackfiller.process_item_range`, for a task without a live queue.
  unfoldable pub process_item_range :
      Context → ℕ → RegistryItem → ℕ → ℕ → ℕ → World db → World db × Pass
  unfolding submit_args
  process_item_range ctx threshold item from to head w =
      submit_args ctx threshold head item from to (get_execution_args item) 0 w
