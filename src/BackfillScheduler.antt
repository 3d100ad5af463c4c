-- ===== src/BackfillScheduler.antt =====
-- _internal/services/backfill_scheduler.py: the backfill of a block range, block after block.
--
-- A backfill runs for hours, and what the other processes do meanwhile enters in two places: each
-- block begins at a moment with its clocks and its table, and a gate that has waited goes on with the
-- clocks and the table of its last look. The chain gives its head at an instant, or raises. The
-- monotonic clock is read as the local one. An interrupt arrives in the pause after a block; logging,
-- metrics and the pauses themselves are left out.
pub mod Head
pub mod DryRun
pub mod Moments
pub mod Sends
pub mod Estimate
pub mod Ends
use abstract_block_dumper.Prelude.{
  ℕ, suc, ◌+◌, ◌-◌, String, Bool, true, false, not, Option, none, some, List, ◌∷◌, [], leb, length,
  if◌then◌else◌, or_else, Result, returned, raises,
}
use abstract_block_dumper.Numeric.{Value}
use abstract_block_dumper.Attempt.Database.{Database}
use abstract_block_dumper.Attempt.Transitions.{Now}
use abstract_block_dumper.Backfill.{block_range, beyond_archive, backfill_target}
use abstract_block_dumper.Backfill.Queued.{settle}
use abstract_block_dumper.Backfill.Window.{submit_block as submit_window_block}
use abstract_block_dumper.BackfillScheduler.Head.{DumperHead, latest_dumper_head}
use abstract_block_dumper.BackfillScheduler.DryRun.{
  Cache, prefetch_executed_blocks, DryRunStats, run_dry_run,
}
use abstract_block_dumper.BackfillScheduler.Moments.{
  Progress, Moment, arrive, resume, with_state, with_world,
}
use abstract_block_dumper.Dispatch.{Context, World, archive_block_threshold, target_queue, execute}
use abstract_block_dumper.Registry.Items.{RegistryItem, match_condition, get_execution_args}
use abstract_block_dumper.Queue.{Queue}
use abstract_block_dumper.Settings.{Settings, Read, valid, value_error}
use abstract_block_dumper.Throttle.{Gate, Look, Admission, admitted, refused, waiting, admit}

-- How a run over the blocks ended: `pending` has a gate that still waits.
pub data Ending : Type 0 where
  completed stopped interrupted pending : Ending

-- What `start` comes to; without a chain head it raises.
pub data Started (T : Type 0) : Type 0 where
  unavailable : Started T
  previewed : DryRunStats → Started T
  ran : Progress T × ℕ × Ending → Started T

module _ (db : Database) (s : Settings) (poll_seconds : Value) (chain : ℕ → Option ℕ) where
  open db use {Table}

  -- The queue has room: the head is asked for, and the block is sent.
  unfoldable pub send : Context → RegistryItem → ℕ → String → Progress Table → Progress Table
  unfolding settle latest_dumper_head with_state
  send ctx item block args p =
      let (h, head) = latest_dumper_head p.head p.now.local (chain p.now.local) block in
      with_state (record p { head = h })
        (settle db s poll_seconds item p.gate (
          execute db (record ctx { now = p.now }) p.world item block args
            (beyond_archive archive_block_threshold head block) (target_queue item.backfill_queue)
            (some head))).0

  -- The gate answered.
  unfoldable pub send_admitted :
      Context
      → RegistryItem
      → ℕ
      → String
      → Progress Table
      → Read (Gate Table × Admission)
      → Progress Table
  unfolding send resume
  send_admitted ctx item block args p value_error = p
  send_admitted ctx item block args p (valid (g, waiting)) = record (resume p g) { blocked = true }
  send_admitted ctx item block args p (valid (g, refused)) = resume p g
  send_admitted ctx item block args p (valid (g, admitted)) = send ctx item block args (resume p g)

  -- The condition answered.
  unfoldable pub send_matching :
      Context → RegistryItem → ℕ → String → Progress Table → Option Bool → Progress Table
  unfolding send_admitted
  send_matching ctx item block args p none = p
  send_matching ctx item block args p (some false) = p
  send_matching ctx item block args p (some true) =
      send_admitted ctx item block args p
        (admit db s poll_seconds p.now p.world.0 p.gate (backfill_target item))

  -- `QueueBackfiller.submit_block` with a gate that waits and a head that is read when needed.
  unfoldable pub submit_queued :
      Context → (ℕ → Bool) → RegistryItem → ℕ → String → Progress Table → Progress Table
  unfolding send_matching
  submit_queued ctx executed item block args p =
      if executed block
      then p
      else send_matching ctx item block args p (match_condition item block args)

  -- By the kind of the task, told by its live queue; `head` is the chain head read at the start.
  unfoldable pub submit_by :
      Context
      → Cache
      → Option ℕ
      → RegistryItem
      → ℕ
      → String
      → Option Queue
      → Progress Table
      → Progress Table
  unfolding submit_queued with_world
  submit_by ctx cache head item block args (some q) p =
      submit_queued ctx (cache item.executable_path args) item block args p
  submit_by ctx cache head item block args none p =
      with_world p
        (submit_window_block db (record ctx { now = p.now }) archive_block_threshold
          (cache item.executable_path args) (or_else head block) item block args p.world).0

  -- One argument set of `_process_registry_item_for_backfill`; exceptions are logged.
  unfoldable pub submit_one :
      Context → Cache → Option ℕ → RegistryItem → ℕ → String → Progress Table → Progress Table
  unfolding submit_by
  submit_one ctx cache head item block args p =
      if p.blocked then p else submit_by ctx cache head item block args item.live_queue p

  unfoldable pub submit_each :
      Context → Cache → Option ℕ → RegistryItem → ℕ → List String → Progress Table → Progress Table
  unfolding submit_one
  submit_each ctx cache head item block [] p = p
  submit_each ctx cache head item block (args ∷ rest) p =
      submit_each ctx cache head item block rest (submit_one ctx cache head item block args p)

  -- `_process_block`
  unfoldable pub process_block :
      Context → Cache → Option ℕ → ℕ → List RegistryItem → Progress Table → Progress Table
  unfolding submit_each
  process_block ctx cache head block [] p = p
  process_block ctx cache head block (item ∷ rest) p =
      process_block ctx cache head block rest
        (submit_each ctx cache head item block (get_execution_args item) p)

  -- The loop of `_run_backfill` over the blocks that are left; `n` is `processed_count`.
  unfoldable pub run_blocks :
      Context
      → Cache
      → Option ℕ
      → List RegistryItem
      → (ℕ → Moment Table)
      → List ℕ
      → ℕ
      → Progress Table
      → Progress Table × ℕ × Ending
  unfolding process_block arrive
  run_blocks ctx cache head items moments [] n p = (p, n, completed)
  run_blocks ctx cache head items moments (block ∷ rest) n p =
      let p' = process_block ctx cache head block items (arrive p (moments block)) in
      let others = run_blocks ctx cache head items moments rest (suc n) p' in
      if not (moments block).is_running
      then (p, n, stopped)
      else if p'.blocked
      then (p', n, pending)
      else if (moments block).interrupted
      then (p', suc n, interrupted)
      else others

  -- `_run_backfill`
  unfoldable pub run_backfill :
      Context
      → Option ℕ
      → List RegistryItem
      → (ℕ → Moment Table)
      → ℕ
      → ℕ
      → Progress Table
      → Progress Table × ℕ × Ending
  unfolding run_blocks prefetch_executed_blocks
  run_backfill ctx head items moments from_block to_block p =
      run_blocks ctx (prefetch_executed_blocks db p.world.0 from_block to_block items) head items
        moments (block_range from_block to_block) 0 p

  -- The state of a backfill that has just read the head.
  unfoldable pub begin : Now → ℕ → List (Look Table) → World db → Progress Table
  begin now head looks w = record {
    world = w;
    gate = record { wait = true; free = []; looks = looks };
    head = record { cache = some head; read_at = some now.local };
    now = now;
    blocked = false;
  }

  -- The head was read.
  unfoldable pub start_at :
      Context
      → Bool
      → List RegistryItem
      → (ℕ → Moment Table)
      → List (Look Table)
      → ℕ
      → ℕ
      → World db
      → Option ℕ
      → Started Table
  unfolding run_backfill begin
  start_at ctx dry_run items moments looks from_block to_block w none = unavailable
  start_at ctx dry_run items moments looks from_block to_block w (some head) =
      if dry_run
      then previewed (run_dry_run db w.0 items from_block to_block)
      else ran (
          run_backfill ctx (some head) items moments from_block to_block
            (begin ctx.now head looks w))

  -- `start`; `looks` is what the waits of `throttle_gate` will see.
  unfoldable pub start :
      Context
      → Bool
      → List RegistryItem
      → (ℕ → Moment Table)
      → List (Look Table)
      → ℕ
      → ℕ
      → World db
      → Started Table
  unfolding start_at
  start ctx dry_run items moments looks from_block to_block w =
      start_at ctx dry_run items moments looks from_block to_block w (chain ctx.now.local)
