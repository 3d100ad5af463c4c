-- ===== src/Examples/Sending.antt =====
-- Instances of the theorems on the executor, the worker, the sweep and the backfills.
use abstract_block_dumper.Prelude.{
  arith, ℕ, ◌+◌, ◌≤◌, ◌≡◌, refl, String, true, false, Option, none, some, List, ◌∷◌, [], length,
  lookup, insert, Result, returned, raises,
}
use abstract_block_dumper.Numeric.{
  is_positive_number, is_positive_integer, is_non_negative_number, plus, real, integer, text,
}
use abstract_block_dumper.Attempt.{TaskAttempt, pending, running, success, failed, fresh_attempt}
use abstract_block_dumper.Attempt.Database.{holds, map_row}
use abstract_block_dumper.Attempt.Transitions.{
  claim, retry_where, held_where, success_set, failure_set, finish_success, requeue_for_retry,
  record_dispatch, give_up_if_past_deadline,
}
use abstract_block_dumper.Attempt.Reads.{count_inflight, inflight_where}
use abstract_block_dumper.Attempt.Reopen.{create_or_reopen, may_reopen, get_or_create}
use abstract_block_dumper.Backfill.{after_block, after_pass, skip_blocks}
use abstract_block_dumper.Backfill.Queued.{
  process_item_range, submit_args, submit_blocks, submit_block, submit_matching, submit_admitted,
  settle,
}
use abstract_block_dumper.Backfill.Skips.{submit_block_skips}
use abstract_block_dumper.Backfill.Queued.Bound.{process_item_range_bounded}
use abstract_block_dumper.Backfill.Window.{submit_block as submit_named}
use abstract_block_dumper.Backfill.Window.Laws.{submit_block_overcounts}
use abstract_block_dumper.BlockTask.{task_can_retry, executed_block_numbers, inflight_block_numbers}
use abstract_block_dumper.Dispatch.{
  Message, is_sent, submission_options, submission_policy, own_options, execute, submit_loaded,
  send_under, gave_up, dispatch_retry, send_retry_to, send_retry, redispatch_queue,
}
use abstract_block_dumper.Dispatch.Options.{HasOptions, submission_options_routed}
use abstract_block_dumper.Dispatch.Laws.{IsOneSubmission, execute_sends_one, dispatch_retry_once}
use abstract_block_dumper.Reconciler.{reconcile}
use abstract_block_dumper.Reconciler.Bound.{IsAccounted, reconcile-IsAccounted}
use abstract_block_dumper.Registry.Dumper.{get_queue}
use abstract_block_dumper.Registry.Items.{
  RegistryItem, match_condition, get_execution_args, get_by_executable_path,
}
use abstract_block_dumper.Retry.Policy.{allows_retry, delay_seconds}
use abstract_block_dumper.Retry.Rules.{retry_delay}
use abstract_block_dumper.Runner.{Delivery, claim_attempt, claim_found, claim_pending, finish_run}
use abstract_block_dumper.Runner.Laws.{
  IsClaim, is_succeeded, claim_attempt_claims, finish_run_succeeded, finish_run_lost,
}
use abstract_block_dumper.Runner.Retry.{IsQueuedAgain, finish_run_retries}
use abstract_block_dumper.Settings.{
  Settings, valid, lease_seconds, stale_task_settings, recovery_margin_seconds,
}
use abstract_block_dumper.Throttle.{
  spent, admit, admit_limited, admit_throttled, admit_with, read_free, read_inflight,
}
use abstract_block_dumper.Examples.Fixtures.{at, row, item, live, context}
use abstract_block_dumper.Examples.Memory.{
  Rows, memory, get, update_rows, count_rows, first_id, free_id,
}

abbrev pub settings : Settings
settings = record {
  stale_task_timeout = real (plus 1000);
  stale_task_sweep_interval = real (plus 100);
  stale_task_sweep_batch_size = integer (plus 10);
  recovery_margin = real (plus 30);
  max_attempt_limit = 3;
}

submission_options_routed_example :
    HasOptions
      (text "live")
      (some 50)
      (some 60)
      (own_options item)
      (submission_options 20 item live none)
submission_options_routed_example = submission_options_routed 20 item live none

abbrev pub nothing_sent : Rows × List Message
nothing_sent = ([], [])

execute_sends_one_example :
    let (w', s) = execute memory (context 20) nothing_sent item 100 "{}" false none (some 100) in
    IsOneSubmission memory nothing_sent w' s item 100 "{}"
execute_sends_one_example =
    execute_sends_one memory (context 20) nothing_sent item 100 "{}" false none (some 100)

abbrev done : TaskAttempt
done = row success (some "a") none 1

abbrev to_retry : TaskAttempt
to_retry = record (row failed (some "a") none 1) { next_retry_at = some 30 }

abbrev retried : (Rows × List Message)
retried = (dispatch_retry memory (context 20) ((1, to_retry) ∷ [], []) 1 item to_retry false).0

dispatch_retry_once_example :
    (holds retry_where (get ((1, to_retry) ∷ []) 1) ≡ true)
    × ((is_sent (dispatch_retry memory (context 25) retried 1 item to_retry true).1 ≡ false)
        × ((dispatch_retry memory (context 25) retried 1 item to_retry true).0.1 ≡ retried.1))
unfolding dispatch_retry send_retry_to send_retry requeue_for_retry get redispatch_queue get_queue
    lookup
dispatch_retry_once_example =
    dispatch_retry_once memory (context 20) (context 25) ((1, to_retry) ∷ [], []) 1 item item
      to_retry to_retry false true refl

abbrev delivery : Delivery
delivery = record {
  block_number = 100;
  executable_path = "tasks.index";
  args_json = "{}";
  claim_token = "a";
  time_limit = some 60;
  use_archive = false;
}

abbrev waiting : Rows
waiting = (1, row pending none none 0) ∷ []

abbrev started : TaskAttempt
started = record (row running (some "a") (some 110) 1) {
  last_attempted_at = some 20;
  updated_at = 20;
}

claim_attempt_claims_example :
    (l : Option ℕ) × (lease_seconds settings (some 60) ≡ valid l)
    × IsClaim memory
        (context 20)
        waiting
        delivery
        l
        1
        started
        (claim_attempt memory settings (context 20) waiting delivery).0
unfolding claim_attempt claim_found claim_pending claim get first_id update_rows lease_seconds
    recovery_margin_seconds is_non_negative_number
claim_attempt_claims_example =
    claim_attempt_claims memory settings (context 20) waiting delivery 1 started refl

abbrev held : Rows × List Message
held = ((1, started) ∷ [], [])

abbrev one : Result (Option String)
one = returned (some "1")

finish_run_succeeded_example :
    (true ≡ true)
    × (one ≡ one)
    × (holds (held_where "a") (get held.0 1) ≡ true)
    × (get (finish_run memory (context 40) (item ∷ []) held 1 started delivery true one).0.0 1
        ≡ map_row (success_set (at 40) (some "1")) (get held.0 1))
    × ((finish_run memory (context 40) (item ∷ []) held 1 started delivery true one).0.1 ≡ held.1)
unfolding finish_run finish_success get
finish_run_succeeded_example =
    finish_run_succeeded memory (context 40) (item ∷ []) held 1 started delivery true one (some "1")
      refl

abbrev taken : Rows × List Message
taken = ((1, row running (some "b") (some 200) 2) ∷ [], [])

finish_run_lost_example :
    ((finish_run memory (context 150) (item ∷ []) taken 1 started delivery true raises).0 ≡ taken)
    × (is_succeeded
          (finish_run memory (context 150) (item ∷ []) taken 1 started delivery true raises).1
        ≡ false)
unfolding get
finish_run_lost_example =
    finish_run_lost memory (context 150) (item ∷ []) taken 1 started delivery true raises refl

finish_run_retries_example :
    IsQueuedAgain memory
      (failure_set (at 40) (some 5) started)
      item
      live
      (40 + 5)
      (context 40)
      1
      held
      (finish_run memory (context 40) (item ∷ []) held 1 started delivery true raises).0
unfolding get retry_delay get_queue lookup allows_retry delay_seconds get_by_executable_path
    redispatch_queue
finish_run_retries_example =
    finish_run_retries memory (context 40) (item ∷ []) held 1 started delivery true 5 started item
      live refl refl refl refl refl refl (λ m. refl)

reconcile-IsAccounted_example : IsAccounted memory taken 10 (
    reconcile memory settings
      (context 300)
      (item ∷ [])
      (λ id. false)
      (some 1000)
      10
      (some 100)
      taken)
reconcile-IsAccounted_example =
    reconcile-IsAccounted memory settings (context 300) (item ∷ []) (λ id. false) (some 1000) 10
      (some 100) taken

process_item_range_bounded_example :
    (length
        (process_item_range memory settings
          (integer (plus 1))
          (context 20)
          300
          item
          97
          99
          100
          nothing_sent).0.0.1
      ≡ 0 + 2)
    × (2 ≤ 2)
unfolding process_item_range submit_args submit_blocks submit_block submit_matching submit_admitted
    settle after_block after_pass get_execution_args match_condition executed_block_numbers
    inflight_block_numbers admit admit_limited admit_throttled admit_with read_free read_inflight
    stale_task_settings recovery_margin_seconds count_inflight inflight_where count_rows spent
    lookup insert execute submit_loaded send_under gave_up give_up_if_past_deadline record_dispatch
    create_or_reopen get_or_create may_reopen fresh_attempt submission_policy get_queue get
    update_rows first_id free_id is_positive_number is_positive_integer is_non_negative_number
process_item_range_bounded_example =
    process_item_range_bounded memory settings (integer (plus 1)) (context 20) 300 item 97 99 100
      nothing_sent live 2 2 refl refl refl

-- A task of `@block_task`.
abbrev plain_item : RegistryItem
plain_item = record item { live_queue = none; backfill_queue = none }

abbrev exhausted : TaskAttempt
exhausted = row failed (some "a") none 3

submit_block_overcounts_example :
    submit_named memory
      (context 20)
      300
      (λ block. false)
      110
      plain_item
      100
      "{}"
      ((1, exhausted) ∷ [], [])
    ≡ (((1, exhausted) ∷ [], []), returned true)
unfolding get first_id match_condition task_can_retry
submit_block_overcounts_example =
    submit_block_overcounts memory (context 20) 300 (λ block. false) 110 plain_item 100 "{}"
      ((1, exhausted) ∷ [], []) 1 exhausted refl refl refl refl refl refl

submit_block_skips_example :
    submit_block memory settings
      (integer (plus 1))
      (context 20)
      300
      (skip_blocks memory ((1, done) ∷ []) item "{}" 97 105)
      106
      item
      100
      "{}"
      (nothing_sent, record { wait = false; free = []; looks = [] })
    ≡ ((nothing_sent, record { wait = false; free = []; looks = [] }), returned false)
unfolding get
submit_block_skips_example =
    submit_block_skips memory settings (integer (plus 1)) (context 20) 300 106 item "{}"
      (nothing_sent, record { wait = false; free = []; looks = [] }) ((1, done) ∷ []) 97 105 100 1
      done refl (record { same_block = refl; same_path = refl; same_args = refl }) (omega arith)
      (omega arith) refl
