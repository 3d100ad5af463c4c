-- ===== src/BlockTask.antt =====
-- Tasks declared with `@block_task`: their rows, as _internal/dal/django_dal.py writes them.
--
-- The code loads a row, changes the object and saves it whole: `save` writes every field of the
-- object over the row, and `updated_at` is `auto_now`.
pub mod Executor
pub mod Wrapper
pub mod Laws
use abstract_block_dumper.Prelude.{
  ℕ, ◌+◌, ◌≡◌, String, Bool, true, false, not, ◌&&◌, ◌||◌, Option, none, some, List, ltb, leb,
  col_lt, col_le, col_ge, among, is_none, is_some, if◌then◌else◌, arith, Result, returned, raises,
  ◌==◌, str_eq,
}
use abstract_block_dumper.Attempt.{
  TaskAttempt, pending, running, success, failed, is_pending, is_running, is_success, is_failed,
}
use abstract_block_dumper.Attempt.Database.{Database}
use abstract_block_dumper.Attempt.Reopen.{get_or_create}
use abstract_block_dumper.Attempt.Transitions.{Now}
use abstract_block_dumper.Retry.Rules.{Rules}
use abstract_block_dumper.Retry.Schedule.{Delay, delay, get_retry_delay_seconds}

-- `_stuck_task_filter`, as the database evaluates it.
unfoldable pub stuck_task_filter : ℕ → ℕ → TaskAttempt → Bool
stuck_task_filter max_attempt_limit stale_before r =
    let in_flight =
      (is_pending r.status || is_running r.status)
      && ltb r.updated_at stale_before
      && (is_none r.next_retry_at || col_lt r.next_retry_at stale_before) in
    let orphaned_retry =
      is_failed r.status && is_some r.next_retry_at && col_lt r.next_retry_at stale_before in
    (in_flight || orphaned_retry) && ltb r.attempt_count max_attempt_limit

-- `is_stuck`
unfoldable pub is_stuck : ℕ → ℕ → TaskAttempt → Bool
is_stuck max_attempt_limit stale_before r =
    if leb max_attempt_limit r.attempt_count
    then false
    else if is_pending r.status || is_running r.status
    then ltb r.updated_at stale_before
      && (is_none r.next_retry_at || col_lt r.next_retry_at stale_before)
    else if is_failed r.status
    then is_some r.next_retry_at && col_lt r.next_retry_at stale_before
    else false

unfoldable pub task_can_retry : ℕ → TaskAttempt → Bool
task_can_retry max_attempt_limit r =
    not (is_success r.status || is_running r.status) && ltb r.attempt_count max_attempt_limit

unfoldable pub mark_as_started : Now → String → TaskAttempt → TaskAttempt
mark_as_started now celery_task_id r = record r {
  celery_task_id = some celery_task_id;
  status = running;
  last_attempted_at = some now.local;
  updated_at = now.local;
}

unfoldable pub mark_as_success : Now → Option String → TaskAttempt → TaskAttempt
mark_as_success now result r = record r {
  status = success;
  execution_result = result;
  last_attempted_at = some now.local;
  next_retry_at = none;
  updated_at = now.local;
}

-- A failed try, counted.
abbrev pub failed_try : Now → TaskAttempt → TaskAttempt
failed_try now r = record r {
  status = failed;
  last_attempted_at = some now.local;
  attempt_count = r.attempt_count + 1;
  updated_at = now.local;
}

abbrev pub with_retry : Now → TaskAttempt → Delay → Result TaskAttempt
with_retry now r (delay d) = returned (record r { next_retry_at = some (now.local + d) })
with_retry now r _ = raises

unfoldable pub mark_as_failed : Rules → Now → TaskAttempt → Result TaskAttempt
mark_as_failed rules now r =
    let tried = failed_try now r in
    if task_can_retry rules.max_attempt_limit tried
    then with_retry now tried
        (get_retry_delay_seconds rules.power rules.settings tried.attempt_count)
    else returned (record tried { next_retry_at = none })

unfoldable pub schedule_to_retry : Now → Option String → TaskAttempt → TaskAttempt
schedule_to_retry now queue r = record r {
  status = pending;
  celery_queue_override = queue;
  updated_at = now.local;
}

unfoldable pub revert_to_failed : Now → TaskAttempt → TaskAttempt
revert_to_failed now r = record r { status = failed; updated_at = now.local }

-- `save(update_fields=["celery_queue_override", "updated_at"])`
unfoldable pub record_queue : Now → Option String → TaskAttempt → TaskAttempt
record_queue now queue r = record r { celery_queue_override = queue; updated_at = now.local }

-- The rows of one task, argument set and range whose status passes the test.
abbrev pub in_range : (TaskAttempt → Bool) → String → String → ℕ → ℕ → TaskAttempt → Bool
in_range test path args from to r =
    str_eq r.executable_path path
    && str_eq r.args_json args
    && leb from r.block_number
    && ltb r.block_number to
    && test r

module _ (db : Database) where
  open db use {Table, get}

  -- `task.save()`
  abbrev pub save : Table → ℕ → TaskAttempt → Table
  save t id r = (db.update t id (λ old. true) (λ old. r)).0

  unfoldable pub get_stuck_task_attempt_ids : Table → ℕ → ℕ → ℕ → List String → List ℕ
  get_stuck_task_attempt_ids t max_attempt_limit stale_before limit exclude_paths =
      db.select t
        (λ r.
          stuck_task_filter max_attempt_limit stale_before r
          && not (among r.executable_path exclude_paths))
        (λ r. r.updated_at) limit

  unfoldable pub task_record_dispatch : Now → Table → ℕ → Option String → Table
  unfolding record_queue
  task_record_dispatch now t id queue = (db.update t id (λ r. true) (record_queue now queue)).0

  -- The loaded row may be sent again now.
  abbrev pub may_run_again : Now → ℕ → TaskAttempt → Bool
  may_run_again now max_attempt_limit r =
      is_failed r.status
      && task_can_retry max_attempt_limit r
      && (is_none r.next_retry_at || col_le r.next_retry_at now.local)

  abbrev pub load_pending : Now → ℕ → Table → ℕ → Bool → Option TaskAttempt → Table
  load_pending now max_attempt_limit t id created none = t
  load_pending now max_attempt_limit t id created (some r) =
      if created || is_success r.status || is_running r.status
      then t
      else if may_run_again now max_attempt_limit r
      then save t id (record r { status = pending; updated_at = now.local })
      else t

  -- The table, the row's id, and whether it was created.
  unfoldable pub task_create_or_get_pending :
      Now → Table → ℕ → ℕ → String → String → Table × ℕ × Bool
  task_create_or_get_pending now t max_attempt_limit block path args =
      let (t', id, created) = get_or_create db now t block path args in
      (load_pending now max_attempt_limit t' id created (get t' id), id, created)

  -- `block_number in executed_block_numbers(…)`, the set read from the table `t`.
  unfoldable pub executed_block_numbers : Table → String → String → ℕ → ℕ → ℕ → Bool
  executed_block_numbers t path args from to block = not (
      db.count t
        (λ r. in_range (λ r. is_success r.status) path args from to r && block == r.block_number)
      == 0)

  -- `block_number in inflight_block_numbers(…)`
  unfoldable pub inflight_block_numbers : Table → String → String → ℕ → ℕ → ℕ → Bool
  inflight_block_numbers t path args from to block = not (
      db.count t (λ r.
        in_range (λ r. is_pending r.status || is_running r.status) path args from to r
        && block == r.block_number)
      == 0)
