-- ===== src/BlockTask/Laws.antt =====
-- The rules of `@block_task` attempts in _internal/dal/django_dal.py.
use abstract_block_dumper.Prelude.{
  ℕ, ◌+◌, ◌≡◌, true, ltb, is_some, arith, Bool-cases, inl, inr, returned,
}
use abstract_block_dumper.Attempt.{TaskAttempt, failed}
use abstract_block_dumper.Attempt.Transitions.{Now}
use abstract_block_dumper.Retry.Rules.{Rules}
use abstract_block_dumper.Retry.Schedule.{Delay, delay, invalid_settings, overflow_error}
use abstract_block_dumper.BlockTask.{
  is_stuck, stuck_task_filter, task_can_retry, mark_as_failed, failed_try, with_retry,
}

-- The re-check of a loaded row under its lock is the predicate of the query.
pub is_stuck-eq-stuck_task_filter :
    (max_attempt_limit stale_before : ℕ) (r : TaskAttempt)
    → is_stuck max_attempt_limit stale_before r ≡ stuck_task_filter max_attempt_limit stale_before r
unfolding is_stuck stuck_task_filter
is_stuck-eq-stuck_task_filter max_attempt_limit stale_before r = ground arith

-- A try that failed: counted, FAILED, and with a retry time exactly while tries are left.
pub record IsFailedTry (limit : ℕ) (r r' : TaskAttempt) : Type 0 where
  pub status : r'.status ≡ failed
  pub counted : r'.attempt_count ≡ r.attempt_count + 1
  pub retry : is_some r'.next_retry_at ≡ ltb (r.attempt_count + 1) limit

with_retry-IsFailedTry :
    (limit : ℕ) (now : Now) (r : TaskAttempt) (d : Delay) (r' : TaskAttempt)
    → ltb (r.attempt_count + 1) limit ≡ true
    → with_retry now (failed_try now r) d ≡ returned r'
    → IsFailedTry limit r r'
with_retry-IsFailedTry limit now r (delay d) r' e h = record {
  status = cc;
  counted = cc;
  retry = cc;
}
with_retry-IsFailedTry limit now r invalid_settings r' e h = cc
with_retry-IsFailedTry limit now r overflow_error r' e h = cc

-- `task_mark_as_failed` counts the try and sets a retry time exactly while tries are left.
pub mark_as_failed-IsFailedTry :
    (rules : Rules) (now : Now) (r r' : TaskAttempt)
    → mark_as_failed rules now r ≡ returned r'
    → IsFailedTry rules.max_attempt_limit r r'
unfolding mark_as_failed task_can_retry
mark_as_failed-IsFailedTry rules now r r' h =
    elim (Bool-cases (ltb (r.attempt_count + 1) rules.max_attempt_limit)) [
      | inl y ↦ with_retry-IsFailedTry rules.max_attempt_limit now r _ r' y (rw y at h)
      | inr n ↦ let k = rw n at h in record { status = cc; counted = cc; retry = cc }
    ]
