-- ===== src/Attempt/Invariant.antt =====
-- What holds of every attempt between two writes, whatever processes write and in whatever order.
use abstract_block_dumper.Prelude.{◌<◌, ◌≡◌, true, none, is_some}
use abstract_block_dumper.Attempt.{TaskAttempt, running, success, failed}
use abstract_block_dumper.Attempt.Database.{Database}

pub record IsWellFormed (r : TaskAttempt) : Type 0 where
  -- A RUNNING attempt has a claimant, and its claim was counted.
  pub running_claimed : r.status ≡ running → is_some r.celery_task_id ≡ true
  pub running_counted : r.status ≡ running → 0 < r.attempt_count
  -- Only a RUNNING attempt has a lease.
  pub lease_running : is_some r.lease_expires_at ≡ true → r.status ≡ running
  -- An attempt that was given up is FAILED and waits for nothing.
  pub reason_failed : is_some r.give_up_reason ≡ true → r.status ≡ failed
  pub reason_no_retry : is_some r.give_up_reason ≡ true → r.next_retry_at ≡ none
  -- A FAILED attempt that was not given up has a retry time, by which the sweep finds it.
  pub failed_retries : r.status ≡ failed → r.give_up_reason ≡ none → is_some r.next_retry_at ≡ true
  pub success_no_retry : r.status ≡ success → r.next_retry_at ≡ none
