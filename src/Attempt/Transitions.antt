-- ===== src/Attempt/Transitions.antt =====
-- _internal/dal/attempt_transitions.py: the transitions that several processes may race for.
--
-- Each transition is one conditional UPDATE. Its WHERE clause is the function `…_where` of a row
-- and its SET part is `…_set`; the transition hands both to the database and returns the new table
-- and whether the row was updated. `now.db` is the database clock, `now.local` is
-- `timezone.now()`. A comparison with `db_now_offset(-w)` is written with `w` on the other side.
use abstract_block_dumper.Prelude.{
  ℕ, ◌+◌, ◌-◌, String, Bool, true, false, ◌&&◌, ◌||◌, Option, none, some, List, [], ◌∷◌, Dict, ltb,
  ◌==◌, col_lt, col_le, col_gt, col_eq, among, is_none, or_else, if◌then◌else◌,
}
use abstract_block_dumper.Attempt.{
  pending, running, success, failed, GiveUpReason, attempts, block_age, manual, TaskAttempt,
  is_pending, is_running, is_failed,
}
use abstract_block_dumper.Attempt.Database.{Database}

pub record Now : Type 0 where
  pub db : ℕ
  pub local : ℕ

-- `BEFORE_GIVE_UP`
abbrev pub before_give_up : Now → TaskAttempt → Bool
before_give_up now r = is_none r.give_up_at || col_gt r.give_up_at now.db

abbrev pub claim_where : Now → TaskAttempt → Bool
claim_where now r = before_give_up now r && is_pending r.status

abbrev pub lease_end : Now → Option ℕ → Option ℕ
lease_end now none = none
lease_end now (some seconds) = some (now.db + seconds)

abbrev pub claim_set : Now → String → Option ℕ → TaskAttempt → TaskAttempt
claim_set now token lease r = record r {
  status = running;
  attempt_count = r.attempt_count + 1;
  celery_task_id = some token;
  last_attempted_at = some now.db;
  lease_expires_at = lease_end now lease;
  updated_at = now.local;
}

-- The claim is held under this token.
abbrev pub held_where : String → TaskAttempt → Bool
held_where token r = is_running r.status && col_eq r.celery_task_id token

abbrev pub success_set : Now → Option String → TaskAttempt → TaskAttempt
success_set now result r = record r {
  status = success;
  execution_result = result;
  next_retry_at = none;
  lease_expires_at = none;
  updated_at = now.local;
}

-- The retry would start after the give-up deadline.
abbrev pub too_late : Now → ℕ → TaskAttempt → Bool
too_late now delay r = col_lt r.give_up_at (now.db + delay)

-- `_failure_fields`
abbrev pub failure_fields : Now → Option ℕ → TaskAttempt → TaskAttempt
failure_fields now none r = record r {
  next_retry_at = none;
  give_up_reason = some attempts;
  updated_at = now.local;
}
failure_fields now (some delay) r = record r {
  next_retry_at = if too_late now delay r then none else some (now.local + delay);
  give_up_reason = if too_late now delay r then some block_age else none;
  updated_at = now.local;
}

abbrev pub failure_set : Now → Option ℕ → TaskAttempt → TaskAttempt
failure_set now delay r = record (failure_fields now delay r) {
  status = failed;
  lease_expires_at = none;
}

abbrev pub expired_lease_where : Now → TaskAttempt → Bool
expired_lease_where now r = is_running r.status && col_lt r.lease_expires_at now.db

-- `COALESCE(give_up_at, …)`
abbrev pub deadline_set : Now → ℕ → ℕ → TaskAttempt → TaskAttempt
deadline_set now ahead behind r = record r {
  give_up_at = some (or_else r.give_up_at (now.db + ahead - behind));
}

abbrev pub past_deadline_where : Now → TaskAttempt → Bool
past_deadline_where now r =
    (is_pending r.status || is_failed r.status)
    && col_le r.give_up_at now.db
    && is_none r.give_up_reason

abbrev pub give_up_set : Now → GiveUpReason → TaskAttempt → TaskAttempt
give_up_set now reason r = record r {
  status = failed;
  next_retry_at = none;
  give_up_reason = some reason;
  updated_at = now.local;
}

-- `could_still_run`
abbrev pub could_still_run : TaskAttempt → Bool
could_still_run r = (is_pending r.status || is_failed r.status) && is_none r.give_up_reason

abbrev pub retry_where : TaskAttempt → Bool
retry_where r = is_failed r.status && is_none r.give_up_reason

abbrev pub requeue_set : Now → String → TaskAttempt → TaskAttempt
requeue_set now queue r = record r {
  status = pending;
  celery_queue_override = some queue;
  dispatch_queue = some queue;
  dispatched_at = some now.db;
  updated_at = now.local;
}

abbrev pub reopen_set : Now → TaskAttempt → TaskAttempt
reopen_set now r = record r { status = pending; updated_at = now.local }

abbrev pub dispatch_set : Now → Option String → Option String → TaskAttempt → TaskAttempt
dispatch_set now queue dispatch_queue r = record r {
  celery_queue_override = queue;
  dispatch_queue = dispatch_queue;
  dispatched_at = some now.db;
  updated_at = now.local;
}

-- `column < bound - window`
abbrev pub col_before : Option ℕ → ℕ → ℕ → Bool
col_before none window bound = false
col_before (some a) window bound = ltb (a + window) bound

-- The message of an attempt on the queue `name`, whose TTL and margin are `window`, expired: it
-- was sent longer ago than that, and its ETA, if it has one, also lies that far back.
abbrev pub expired_in : Now → String → ℕ → TaskAttempt → Bool
expired_in now name window r =
    col_eq r.dispatch_queue name
    && col_before r.dispatched_at window now.db
    && (is_none r.next_retry_at || col_before r.next_retry_at window now.local)

-- The disjunction that the loop of `expired_message_filter` builds.
abbrev pub expired_in_any : Now → Dict ℕ → TaskAttempt → Bool
expired_in_any now [] r = false
expired_in_any now ((name, window) ∷ rest) r =
    expired_in now name window r || expired_in_any now rest r

-- `queue_attempts.expired_message_filter`
unfoldable pub expired_message_filter : Now → Dict ℕ → TaskAttempt → Bool
expired_message_filter now windows r = is_pending r.status && expired_in_any now windows r

abbrev pub redispatch_set : Now → TaskAttempt → TaskAttempt
redispatch_set now r = record r {
  celery_task_id = none;
  dispatched_at = some now.db;
  updated_at = now.local;
}

module _ (db : Database) where
  open db use {Table}

  -- `updated == 1`
  abbrev pub transition :
      Table → ℕ → (TaskAttempt → Bool) → (TaskAttempt → TaskAttempt) → Table × Bool
  transition t id where_ set = let (t', updated) = db.update t id where_ set in (t', updated == 1)

  unfoldable pub claim : Now → Table → ℕ → String → Option ℕ → Table × Bool
  claim now t id token lease = transition t id (claim_where now) (claim_set now token lease)

  unfoldable pub finish_success : Now → Table → ℕ → String → Option String → Table × Bool
  finish_success now t id token result = transition t id (held_where token) (success_set now result)

  unfoldable pub finish_failure : Now → Table → ℕ → String → Option ℕ → Table × Bool
  finish_failure now t id token delay = transition t id (held_where token) (failure_set now delay)

  unfoldable pub fail_expired_lease : Now → Table → ℕ → Option ℕ → Table × Bool
  fail_expired_lease now t id delay =
      transition t id (expired_lease_where now) (failure_set now delay)

  -- The deadline lies `ahead` ticks after now, less `behind`: the argument of the source is their
  -- difference, which may be negative. A deadline before the clock's start is at its start.
  unfoldable pub set_give_up_deadline : Now → Table → ℕ → ℕ → ℕ → Table
  set_give_up_deadline now t id ahead behind =
      (db.update t id (λ r. true) (deadline_set now ahead behind)).0

  unfoldable pub give_up_if_past_deadline : Now → Table → ℕ → Table × Bool
  give_up_if_past_deadline now t id =
      transition t id (past_deadline_where now) (give_up_set now block_age)

  -- `scope` is the queryset that the operator chose; the number of rows given up comes back.
  unfoldable pub give_up_by_hand : Now → Table → (TaskAttempt → Bool) → Table × ℕ
  give_up_by_hand now t scope =
      db.update_all t (λ r. scope r && could_still_run r) (give_up_set now manual)

  unfoldable pub requeue_for_retry : Now → Table → ℕ → String → Table × Bool
  requeue_for_retry now t id queue = transition t id retry_where (requeue_set now queue)

  unfoldable pub record_dispatch : Now → Table → ℕ → Option String → Option String → Table
  record_dispatch now t id queue dispatch_queue =
      (db.update t id (λ r. true) (dispatch_set now queue dispatch_queue)).0

  unfoldable pub claim_expired_message : Now → Table → ℕ → Dict ℕ → Table × Bool
  claim_expired_message now t id windows =
      transition t id (expired_message_filter now windows) (redispatch_set now)

  unfoldable pub expired_lease_ids : Now → Table → ℕ → List String → List ℕ
  expired_lease_ids now t limit paths =
      db.select t (λ r. expired_lease_where now r && among r.executable_path paths)
        (λ r. or_else r.lease_expires_at 0) limit
