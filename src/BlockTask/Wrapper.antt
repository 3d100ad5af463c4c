-- ===== src/BlockTask/Wrapper.antt =====
-- v1/decorators.py: the worker side of a `@block_task` task, `_celery_task_wrapper` and
-- `schedule_retry`.
--
-- The wrapper holds the row's lock from its read to its commit, so that it is one step on the table.
-- The task's function is a parameter: it returns a result or raises.
use abstract_block_dumper.Prelude.{
  ℕ, String, Bool, false, not, Option, none, some, List, [], if◌then◌else◌, Result, returned,
  raises,
}
use abstract_block_dumper.Attempt.{TaskAttempt, is_pending, is_failed}
use abstract_block_dumper.Attempt.Database.{Database}
use abstract_block_dumper.Registry.Items.{RegistryItem, get_by_executable_path}
use abstract_block_dumper.Dispatch.{Context, Sending, not_sent, World, post}
use abstract_block_dumper.BlockTask.{
  save, mark_as_started, mark_as_success, mark_as_failed, schedule_to_retry, task_can_retry,
}
use abstract_block_dumper.BlockTask.Executor.{put_queue}

-- What a message came to: the Celery result, nothing, `CeleryTaskLockedError`, or the exception of
-- a transaction that was rolled back.
pub data Outcome : Type 0 where
  succeeded : Option String → Outcome
  no_result locked rolled_back : Outcome

module _ (db : Database) where
  open db use {Table, get, find}

  unfoldable pub send_scheduled :
      Context → World db → TaskAttempt → Option ℕ → Option RegistryItem → World db × Sending
  send_scheduled ctx w r eta none = (w, not_sent)
  send_scheduled ctx w r eta (some item) = post db ctx w (record {
    task = item.executable_path;
    block_number = r.block_number;
    args = r.args_json;
    use_archive = false;
    eta = eta;
    options = put_queue r.celery_queue_override [];
  })

  -- `schedule_retry` of the row `r` as loaded; `functions` is the registry.
  unfoldable pub schedule_retry :
      Context → List RegistryItem → World db → ℕ → TaskAttempt → World db × Sending
  unfolding send_scheduled
  schedule_retry ctx functions w id r = elim r.next_retry_at [
    | none ↦ (w, not_sent)
    | some eta ↦
        if not (is_failed r.status)
        then (w, not_sent)
        else send_scheduled ctx
            (save db w.0 id (schedule_to_retry ctx.now r.celery_queue_override r), w.1) r (some eta)
            (get_by_executable_path functions r.executable_path)
  ]

  -- After the commit of a failed try; what the retry raises is logged.
  unfoldable pub retry_failed :
      Context → List RegistryItem → World db → ℕ → TaskAttempt → World db × Outcome
  unfolding schedule_retry
  retry_failed ctx functions w id r =
      if task_can_retry ctx.rules.max_attempt_limit r
      then ((schedule_retry ctx functions w id r).0, no_result)
      else (w, no_result)

  -- The locked row ran and its function ended so.
  unfoldable pub finish_try :
      Context
      → List RegistryItem
      → World db
      → ℕ
      → TaskAttempt
      → Result (Option String)
      → World db × Outcome
  unfolding retry_failed
  finish_try ctx functions w id r (returned result) =
      ((save db w.0 id (mark_as_success ctx.now result r), w.1), succeeded result)
  finish_try ctx functions w id r raises = elim (mark_as_failed ctx.rules ctx.now r) [
    | raises ↦ (w, rolled_back)
    | returned failed_row ↦
        retry_failed ctx functions (save db w.0 id failed_row, w.1) id failed_row
  ]

  unfoldable pub run_loaded :
      Context
      → List RegistryItem
      → World db
      → ℕ
      → String
      → Option TaskAttempt
      → Result (Option String)
      → World db × Outcome
  unfolding finish_try
  run_loaded ctx functions w id token none result = (w, locked)
  run_loaded ctx functions w id token (some r) result =
      if not (is_pending r.status)
      then (w, no_result)
      else finish_try ctx functions w id (mark_as_started ctx.now token r) result

  -- `_celery_task_wrapper`: `row_locked` says that another transaction holds the row's lock.
  unfoldable pub celery_task_wrapper :
      Context
      → List RegistryItem
      → World db
      → ℕ
      → String
      → String
      → String
      → Bool
      → Result (Option String)
      → World db × Outcome
  unfolding run_loaded
  celery_task_wrapper ctx functions w block path args token row_locked result =
      elim (find w.0 block path args) [
        | none ↦ (w, locked)
        | some id ↦
            if row_locked
            then (w, locked)
            else run_loaded ctx functions w id token (get w.0 id) result
      ]
