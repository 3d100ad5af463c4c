-- ===== src/Scheduler/Loop.antt =====
-- _internal/services/scheduler.py: the loop of `TaskScheduler.start` over all chain heads, and the sweep.
--
-- A turn of the loop takes what it sees: the clocks, what a read of each head gives, the starting block
-- that the resolver gives for each head, and which rows others have locked. Exceptions of one part are
-- logged, and the loop goes on. The check of the queues only reads the broker, and has no place here.
pub mod Grouping
pub mod Isolation
pub mod Polls
pub mod Progress
pub mod Start
use abstract_block_dumper.Prelude.{
  ℕ, Bool, true, false, Option, none, some, List, ◌∷◌, [], ◌++◌, leb, if◌then◌else◌,
}
use abstract_block_dumper.Attempt.Database.{Database}
use abstract_block_dumper.Dispatch.{Context, World}
use abstract_block_dumper.Processor.{reconcile_stuck_tasks}
use abstract_block_dumper.Reconciler.{reconcile}
use abstract_block_dumper.Registry.Items.{RegistryItem, BlockSource, latest, finalized}
use abstract_block_dumper.Scheduler.{
  Heads, Scheduler, ensure_starting_block, poll_block_source, sweep_due,
}
use abstract_block_dumper.Settings.{Settings}

abbrev pub same_source : BlockSource → BlockSource → Bool
same_source latest latest = true
same_source finalized finalized = true
same_source _ _ = false

-- A dict from block sources to their tasks, in the order in which the keys came.
abbrev pub Groups : Type 0
Groups = List (BlockSource × List RegistryItem)

-- `task_groups.setdefault(source, []).append(item)`
unfoldable pub append_to : BlockSource → RegistryItem → Groups → Groups
append_to source item [] = (source, item ∷ []) ∷ []
append_to source item ((key, items) ∷ rest) =
    let later = append_to source item rest in
    if same_source key source then (key, items ++ item ∷ []) ∷ rest else (key, items) ∷ later

unfoldable pub add_to_groups : Groups → List RegistryItem → Groups
unfolding append_to
add_to_groups groups [] = groups
add_to_groups groups (item ∷ rest) = add_to_groups (append_to item.block_source item groups) rest

-- `_group_by_block_source`
unfoldable pub group_by_block_source : List RegistryItem → Groups
unfolding add_to_groups
group_by_block_source items = add_to_groups [] items

-- What a turn of the loop sees.
pub record Turn : Type 0 where
  pub context : Context
  pub monotonic : ℕ
  pub starting_block : BlockSource → Option ℕ
  pub head : BlockSource → Option ℕ
  pub row_locked : ℕ → Bool

-- The arguments of `TaskScheduler(...)` that the loop uses.
pub record LoopOptions : Type 0 where
  pub lookback_enabled : Bool
  pub stale_task_timeout : Option ℕ
  pub stale_task_sweep_interval : ℕ
  pub stale_task_batch_size : ℕ
  pub has_queue_reconciler : Bool

abbrev higher : Option ℕ → Option ℕ → Option ℕ
higher none b = b
higher (some a) none = some a
higher (some a) (some b) = if leb a b then some b else some a

-- `max(self.observed_blocks.values())`, if there is any
unfoldable pub highest_observed : Heads → Option ℕ
highest_observed h = higher h.latest_block h.finalized_block

-- The first loop of `start`: heads that cannot be resolved are left for their polls.
unfoldable pub resolve_groups : (BlockSource → Option ℕ) → Groups → Scheduler → Scheduler
unfolding ensure_starting_block
resolve_groups starting_block [] st = st
resolve_groups starting_block ((source, items) ∷ rest) st =
    resolve_groups starting_block rest (ensure_starting_block st source (starting_block source)).0

module _ (db : Database) (s : Settings) (options : LoopOptions) where
  -- The state of the loop: the cursors, the table with the messages, and `_last_reconcile_at`.
  abbrev pub LoopState : Type 0
  LoopState = (Scheduler × World db) × Option ℕ

  -- The polls of one turn.
  unfoldable pub poll_groups : Turn → Groups → Scheduler × World db → Scheduler × World db
  unfolding poll_block_source
  poll_groups turn [] state = state
  poll_groups turn ((source, items) ∷ rest) state = poll_groups turn rest (
      poll_block_source db s turn.context options.lookback_enabled items source
        (turn.starting_block source) (turn.head source) state)

  -- `_recover_block_task_attempts`, unless there is no stuck-task timeout.
  unfoldable pub recover_block_task_attempts :
      Turn → List RegistryItem → Option ℕ → Option ℕ → World db → World db
  unfolding reconcile_stuck_tasks
  recover_block_task_attempts turn functions none head w = w
  recover_block_task_attempts turn functions (some stale_after) head w =
      (reconcile_stuck_tasks db turn.context functions turn.row_locked stale_after
        options.stale_task_batch_size head w).0

  -- `_recover_block_dumper_attempts`
  unfoldable pub recover_block_dumper_attempts :
      Turn → List RegistryItem → Option ℕ → World db → World db
  unfolding reconcile
  recover_block_dumper_attempts turn functions head w =
      if options.has_queue_reconciler
      then (reconcile db s turn.context functions turn.row_locked options.stale_task_timeout
          options.stale_task_batch_size head w).0
      else w

  -- `_maybe_reconcile_stuck_tasks`
  unfoldable pub maybe_reconcile : Turn → List RegistryItem → LoopState → LoopState
  unfolding sweep_due recover_block_task_attempts recover_block_dumper_attempts highest_observed
  maybe_reconcile turn functions ((st, w), last) =
      if sweep_due options.stale_task_sweep_interval last turn.monotonic
      then (
        (
          st,
          recover_block_dumper_attempts turn functions (highest_observed st.observed_blocks) (
              recover_block_task_attempts turn functions options.stale_task_timeout
                (highest_observed st.observed_blocks) w),
        ),
        some turn.monotonic,
      )
      else ((st, w), last)

  unfoldable pub run_turn : List RegistryItem → Groups → Turn → LoopState → LoopState
  unfolding poll_groups maybe_reconcile
  run_turn functions groups turn (state, last) =
      maybe_reconcile turn functions (poll_groups turn groups state, last)

  unfoldable pub run_turns : List RegistryItem → Groups → List Turn → LoopState → LoopState
  unfolding run_turn
  run_turns functions groups [] state = state
  run_turns functions groups (turn ∷ rest) state =
      run_turns functions groups rest (run_turn functions groups turn state)

  -- `start`, for as many turns as the loop has before it is stopped.
  unfoldable pub start :
      List RegistryItem → (BlockSource → Option ℕ) → List Turn → LoopState → LoopState
  unfolding run_turns group_by_block_source resolve_groups
  start functions starting_block turns ((st, w), last) =
      let groups = group_by_block_source functions in
      let fresh = record st {
        last_processed_blocks = record { latest_block = none; finalized_block = none };
      } in
      run_turns functions groups turns ((resolve_groups starting_block groups fresh, w), last)
