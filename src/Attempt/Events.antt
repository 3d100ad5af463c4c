-- ===== src/Attempt/Events.antt =====
-- Every write that the code makes to an attempt of a `BlockDumper` task, as one step of an
-- interleaving: the transitions, the submission of a block, the operator's command, and the sweep's
-- locked re-check with `reset_to_pending` (_internal/dal/django_dal.py).
--
-- A trace is a list of events with their clock readings, in the order in which the database commits
-- them. Any processes, with any timing, make such a list.
use abstract_block_dumper.Prelude.{
  ℕ, ◌≡◌, String, Bool, true, Option, none, List, [], ◌∷◌, Dict, if◌then◌else◌, ◌==◌,
}
use abstract_block_dumper.Attempt.{TaskAttempt, pending, block_age}
use abstract_block_dumper.Attempt.Database.{Database, map_row}
use abstract_block_dumper.Attempt.Transitions.{
  Now, claim_where, claim_set, held_where, success_set, failure_set, expired_lease_where,
  deadline_set, past_deadline_where, give_up_set, retry_where, requeue_set, reopen_set,
  dispatch_set, expired_message_filter, redispatch_set, claim, finish_success, finish_failure,
  fail_expired_lease, set_give_up_deadline, give_up_if_past_deadline, give_up_by_hand,
  requeue_for_retry, record_dispatch, claim_expired_message, transition,
}
use abstract_block_dumper.Attempt.Reads.{is_stuck}
use abstract_block_dumper.Attempt.Reopen.{create_or_reopen}

-- `reset_to_pending`: the row is saved whole under its lock, and `updated_at` is `auto_now`.
abbrev pub reset_set : Now → TaskAttempt → TaskAttempt
reset_set now r = record r { celery_task_id = none; status = pending; updated_at = now.local }

pub data Write : Type 0 where
  to_claim : String → Option ℕ → Write
  to_finish_success : String → Option String → Write
  to_finish_failure : String → Option ℕ → Write
  to_fail_expired_lease : Option ℕ → Write
  to_set_deadline : ℕ → ℕ → Write
  to_give_up_past_deadline : Write
  to_requeue : String → Write
  to_record_dispatch : Option String → Option String → Write
  to_claim_expired_message : Dict ℕ → Write
  to_reopen : Write
  to_reset_stuck : ℕ → ℕ → List String → Write

-- The WHERE clause and the SET part of a write.
abbrev pub write_where : Now → Write → TaskAttempt → Bool
write_where now (to_claim token lease) r = claim_where now r
write_where now (to_finish_success token result) r = held_where token r
write_where now (to_finish_failure token delay) r = held_where token r
write_where now (to_fail_expired_lease delay) r = expired_lease_where now r
write_where now (to_set_deadline ahead behind) r = true
write_where now to_give_up_past_deadline r = past_deadline_where now r
write_where now (to_requeue queue) r = retry_where r
write_where now (to_record_dispatch queue dispatch_queue) r = true
write_where now (to_claim_expired_message windows) r = expired_message_filter now windows r
write_where now to_reopen r = retry_where r
write_where now (to_reset_stuck limit stale_before ttl_queues) r =
    is_stuck limit stale_before ttl_queues r

abbrev pub write_set : Now → Write → TaskAttempt → TaskAttempt
write_set now (to_claim token lease) r = claim_set now token lease r
write_set now (to_finish_success token result) r = success_set now result r
write_set now (to_finish_failure token delay) r = failure_set now delay r
write_set now (to_fail_expired_lease delay) r = failure_set now delay r
write_set now (to_set_deadline ahead behind) r = deadline_set now ahead behind r
write_set now to_give_up_past_deadline r = give_up_set now block_age r
write_set now (to_requeue queue) r = requeue_set now queue r
write_set now (to_record_dispatch queue dispatch_queue) r = dispatch_set now queue dispatch_queue r
write_set now (to_claim_expired_message windows) r = redispatch_set now r
write_set now to_reopen r = reopen_set now r
write_set now (to_reset_stuck limit stale_before ttl_queues) r = reset_set now r

-- What a write does to the row that it names.
unfoldable pub write_row : Now → Write → TaskAttempt → TaskAttempt
write_row now w r = if write_where now w r then write_set now w r else r

pub data Event : Type 0 where
  on : ℕ → Write → Event
  by_hand : (TaskAttempt → Bool) → Event
  submit : ℕ → ℕ → String → String → Event

module _ (db : Database) where
  open db use {Table, get, update, get-update}

  -- A write through the transition that makes it, and what the transition returns.
  unfoldable pub run_write : Now → Table → ℕ → Write → Table × Bool
  unfolding claim finish_success finish_failure fail_expired_lease set_give_up_deadline
      give_up_if_past_deadline requeue_for_retry record_dispatch claim_expired_message
  run_write now t id (to_claim token lease) = claim db now t id token lease
  run_write now t id (to_finish_success token result) = finish_success db now t id token result
  run_write now t id (to_finish_failure token delay) = finish_failure db now t id token delay
  run_write now t id (to_fail_expired_lease delay) = fail_expired_lease db now t id delay
  run_write now t id (to_set_deadline ahead behind) =
      (set_give_up_deadline db now t id ahead behind, true)
  run_write now t id to_give_up_past_deadline = give_up_if_past_deadline db now t id
  run_write now t id (to_requeue queue) = requeue_for_retry db now t id queue
  run_write now t id (to_record_dispatch queue dispatch_queue) =
      (record_dispatch db now t id queue dispatch_queue, true)
  run_write now t id (to_claim_expired_message windows) = claim_expired_message db now t id windows
  run_write now t id to_reopen = transition db t id retry_where (reopen_set now)
  run_write now t id (to_reset_stuck limit stale_before ttl_queues) =
      transition db t id (is_stuck limit stale_before ttl_queues) (reset_set now)

  unfoldable pub run_event : Now → Table → Event → Table
  unfolding give_up_by_hand
  run_event now t (on id w) = (run_write now t id w).0
  run_event now t (by_hand scope) = (give_up_by_hand db now t scope).0
  run_event now t (submit limit block path args) =
      (create_or_reopen db now t limit block path args).0

  unfoldable pub run : Table → List (Now × Event) → Table
  run t [] = t
  run t ((now, e) ∷ rest) = run (run_event now t e) rest

  -- A write changes the row that it names, as `write_row` says, and no other.
  pub get-run_write :
      (now : Now) (t : Table) (i : ℕ) (w : Write) (j : ℕ)
      → get (run_write now t i w).0 j
        ≡ (if i == j then map_row (write_row now w) (get t j) else get t j)
  unfolding run_write write_row
  get-run_write now t i (to_claim token lease) j = get-update t i _ _ j
  get-run_write now t i (to_finish_success token result) j = get-update t i _ _ j
  get-run_write now t i _ j = get-update t i _ _ j
