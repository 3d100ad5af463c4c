-- ===== src/Processor.antt =====
-- _internal/services/block_processor.py: the tasks of a new block, and the recovery of the attempts
-- of `@block_task` tasks.
--
-- Exceptions are logged for each argument set and each attempt, and the loop goes on. A pass reads
-- the clocks once.
use abstract_block_dumper.Prelude.{
  ℕ, ◌-◌, String, Bool, true, false, Option, none, some, List, ◌∷◌, [], if◌then◌else◌,
}
use abstract_block_dumper.Attempt.{TaskAttempt}
use abstract_block_dumper.Attempt.Database.{Database}
use abstract_block_dumper.Attempt.Events.{reset_set}
use abstract_block_dumper.Attempt.Transitions.{transition}
use abstract_block_dumper.BlockTask.{is_stuck, get_stuck_task_attempt_ids}
use abstract_block_dumper.BlockTask.Executor.{execute as execute_named}
use abstract_block_dumper.Dispatch.{Context, World, Sending, raised, execute}
use abstract_block_dumper.Reconciler.{dumper_paths, needs_archive, recover_each}
use abstract_block_dumper.Registry.Items.{
  RegistryItem, match_condition, get_execution_args, get_by_executable_path,
}

module _ (db : Database) where
  open db use {Table, get}

  -- One argument set whose condition answered; none where it raised.
  unfoldable pub submit_live :
      Context → RegistryItem → ℕ → String → World db → Option Bool → World db
  submit_live ctx item block args w none = w
  submit_live ctx item block args w (some false) = w
  submit_live ctx item block args w (some true) = elim item.live_queue [
    | some q ↦ (execute db ctx w item block args false none (some block)).0
    | none ↦ (execute_named db ctx w item block args false none).0
  ]

  unfoldable pub submit_live_args : Context → RegistryItem → ℕ → List String → World db → World db
  unfolding submit_live
  submit_live_args ctx item block [] w = w
  submit_live_args ctx item block (args ∷ rest) w =
      submit_live_args ctx item block rest
        (submit_live ctx item block args w (match_condition item block args))

  -- `process_registry_item`
  unfoldable pub process_registry_item : Context → RegistryItem → ℕ → World db → World db
  unfolding submit_live_args
  process_registry_item ctx item block w =
      submit_live_args ctx item block (get_execution_args item) w

  -- `process_block`
  unfoldable pub process_block : Context → ℕ → List RegistryItem → World db → World db
  unfolding process_registry_item
  process_block ctx block [] w = w
  process_block ctx block (item ∷ rest) w =
      process_block ctx block rest (process_registry_item ctx item block w)

  -- An attempt that was sent to the executor counts as recovered, whether or not a message went out.
  abbrev handled : World db × Sending → World db × Bool
  handled (w, raised) = (w, false)
  handled (w, _) = (w, true)

  unfoldable pub reconcile_stuck_of :
      Context → World db → ℕ → ℕ → Option ℕ → TaskAttempt → Option RegistryItem → World db × Bool
  reconcile_stuck_of ctx w id stale_before head r none = (w, false)
  reconcile_stuck_of ctx w id stale_before head r (some item) =
      let (t, stuck) =
        transition db w.0 id (is_stuck ctx.rules.max_attempt_limit stale_before)
          (reset_set ctx.now) in
      if stuck
      then handled (
          execute_named db ctx (t, w.1) item r.block_number r.args_json (needs_archive r head)
            r.celery_queue_override)
      else (w, false)

  -- `_reconcile_stuck_task`
  unfoldable pub reconcile_stuck_task :
      Context → List RegistryItem → (ℕ → Bool) → ℕ → Option ℕ → World db → ℕ → World db × Bool
  unfolding reconcile_stuck_of
  reconcile_stuck_task ctx functions row_locked stale_before head w id =
      if row_locked id then (w, false) else elim (get w.0 id) [
        | none ↦ (w, false)
        | some r ↦
            reconcile_stuck_of ctx w id stale_before head r
              (get_by_executable_path functions r.executable_path)
      ]

  -- `BlockProcessor.reconcile_stuck_tasks`
  unfoldable pub reconcile_stuck_tasks :
      Context → List RegistryItem → (ℕ → Bool) → ℕ → ℕ → Option ℕ → World db → World db × ℕ
  unfolding recover_each
  reconcile_stuck_tasks ctx functions row_locked stale_after limit head w =
      let stale_before = ctx.now.local - stale_after in
      recover_each (reconcile_stuck_task ctx functions row_locked stale_before head)
        (get_stuck_task_attempt_ids db w.0 ctx.rules.max_attempt_limit stale_before limit
          (dumper_paths functions))
        w
