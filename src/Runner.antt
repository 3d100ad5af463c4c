-- ===== src/Runner.antt =====
-- _internal/services/task_runner.py: the worker side of a `BlockDumper` task.
--
-- The function of the task is a parameter: it takes the world when it starts to the world when it
-- ends, in which other processes may have written meanwhile, and returns a result or raises.
-- `commits` says that the transaction around it takes the outcome and commits without an exception.
-- A message reads the clocks once when it claims and once when it ends.
pub mod Laws
pub mod Retry
use abstract_block_dumper.Prelude.{
  ℕ, String, Bool, true, false, not, Option, none, some, List, if◌then◌else◌, is_some, Result,
  returned, raises,
}
use abstract_block_dumper.Attempt.{TaskAttempt, is_pending, is_running}
use abstract_block_dumper.Attempt.Database.{Database}
use abstract_block_dumper.Attempt.Transitions.{
  claim, finish_success, finish_failure, give_up_if_past_deadline,
}
use abstract_block_dumper.Dispatch.{Context, World, dispatch_retry}
use abstract_block_dumper.Registry.Items.{RegistryItem, get_by_executable_path}
use abstract_block_dumper.Retry.Rules.{RetryDelay, no_retry, retry_in, failure, retry_delay}
use abstract_block_dumper.Settings.{Settings, Read, valid, value_error, lease_seconds}

-- What `_claim` comes to: the claimed row with its id, nothing to do, or an exception.
pub data Claimed : Type 0 where
  claimed : ℕ → TaskAttempt → Claimed
  nothing_to_do task_locked settings_invalid : Claimed

-- What `run` returns: the Celery result, None, or an exception.
pub data Outcome : Type 0 where
  succeeded : Option String → Outcome
  no_result locked raised : Outcome

-- A message of a task, as the worker gets it.
pub record Delivery : Type 0 where
  pub block_number : ℕ
  pub executable_path : String
  pub args_json : String
  pub claim_token : String
  pub time_limit : Option ℕ
  pub use_archive : Bool

abbrev pub settled : Option TaskAttempt → Claimed
settled none = task_locked
settled (some r) = if is_running r.status then task_locked else nothing_to_do

abbrev pub row_at : {A : Type 0} → (A → ℕ → Option TaskAttempt) → A → Option ℕ → Option TaskAttempt
row_at get t none = none
row_at get t (some id) = get t id

abbrev pub loaded : ℕ → Option TaskAttempt → Claimed
loaded id none = task_locked
loaded id (some r) = claimed id r

module _ (db : Database) where
  open db use {Table, get, find}

  -- The claim of a PENDING attempt, or what it lost against.
  unfoldable pub claim_pending : Context → Table → Delivery → ℕ → Option ℕ → Table × Claimed
  claim_pending ctx t d id lease =
      let (t1, won) = claim db ctx.now t id d.claim_token lease in
      let (t2, stopped) = give_up_if_past_deadline db ctx.now t1 id in
      if won
      then (t1, loaded id (get t1 id))
      else if stopped
      then (t2, nothing_to_do)
      else (t2, settled (row_at get t2 (find t2 d.block_number d.executable_path d.args_json)))

  -- The row that was found, when the lease is known.
  unfoldable pub claim_found :
      Context → Table → Delivery → ℕ → Option TaskAttempt → Read (Option ℕ) → Table × Claimed
  unfolding claim_pending
  claim_found ctx t d id none lease = (t, task_locked)
  claim_found ctx t d id (some r) value_error =
      if is_pending r.status then (t, settings_invalid) else (t, settled (some r))
  claim_found ctx t d id (some r) (valid lease) =
      if is_pending r.status then claim_pending ctx t d id lease else (t, settled (some r))

  -- `_claim`
  unfoldable pub claim_attempt : Settings → Context → Table → Delivery → Table × Claimed
  unfolding claim_found
  claim_attempt s ctx t d = elim (find t d.block_number d.executable_path d.args_json) [
    | none ↦ (t, task_locked)
    | some id ↦ claim_found ctx t d id (get t id) (lease_seconds s d.time_limit)
  ]

  unfoldable pub retry_item :
      Context → World db → ℕ → TaskAttempt → Bool → Option RegistryItem → World db
  retry_item ctx w id r use_archive none = w
  retry_item ctx w id r use_archive (some item) = (dispatch_retry db ctx w id item r use_archive).0

  -- `_retry_or_report_given_up`, for the refreshed row; what the retry raises is logged.
  unfoldable pub retry_or_report_given_up :
      Context → List RegistryItem → World db → ℕ → Bool → Option TaskAttempt → World db × Outcome
  unfolding retry_item
  retry_or_report_given_up ctx functions w id use_archive none = (w, raised)
  retry_or_report_given_up ctx functions w id use_archive (some r) =
      if is_some r.give_up_reason then (w, no_result) else (
        retry_item ctx w id r use_archive (get_by_executable_path functions r.executable_path),
        no_result,
      )

  unfoldable pub fail_with :
      Context → List RegistryItem → World db → ℕ → Delivery → Option ℕ → World db × Outcome
  unfolding retry_or_report_given_up
  fail_with ctx functions w id d delay =
      let (t, finished) = finish_failure db ctx.now w.0 id d.claim_token delay in
      if finished
      then retry_or_report_given_up ctx functions (t, w.1) id d.use_archive (get t id)
      else (w, no_result)

  -- `_record_failure` under the retry rules' delay for the claimed row.
  unfoldable pub record_failure :
      Context → List RegistryItem → World db → ℕ → Delivery → RetryDelay → World db × Outcome
  unfolding fail_with
  record_failure ctx functions w id d no_retry = fail_with ctx functions w id d none
  record_failure ctx functions w id d (retry_in delay) = fail_with ctx functions w id d (some delay)
  record_failure ctx functions w id d failure = (w, raised)

  -- The end of a try: the function's transaction commits its outcome, or FAILED is recorded in one
  -- of its own. A lost claim rolls everything back.
  unfoldable pub finish_run :
      Context
      → List RegistryItem
      → World db
      → ℕ
      → TaskAttempt
      → Delivery
      → Bool
      → Result (Option String)
      → World db × Outcome
  unfolding record_failure
  finish_run ctx functions w id r d true (returned result) =
      let (t, finished) = finish_success db ctx.now w.0 id d.claim_token result in
      if finished then ((t, w.1), succeeded result) else (w, no_result)
  finish_run ctx functions w id r d _ _ =
      record_failure ctx functions w id d (retry_delay ctx.rules r)

  unfoldable pub execute_claimed :
      Context
      → List RegistryItem
      → World db
      → Delivery
      → Bool
      → (World db → World db × Result (Option String))
      → Claimed
      → World db × Outcome
  unfolding finish_run
  execute_claimed ctx functions w d commits func (claimed id r) =
      let (w', result) = func w in finish_run ctx functions w' id r d commits result
  execute_claimed ctx functions w d commits func nothing_to_do = (w, no_result)
  execute_claimed ctx functions w d commits func task_locked = (w, locked)
  execute_claimed ctx functions w d commits func settings_invalid = (w, raised)

  -- `TaskRunner.run`: `ctx` has the clocks of the claim, `ctx'` those of the end.
  unfoldable pub run_message :
      Settings
      → Context
      → Context
      → List RegistryItem
      → World db
      → Delivery
      → Bool
      → (World db → World db × Result (Option String))
      → World db × Outcome
  unfolding claim_attempt execute_claimed
  run_message s ctx ctx' functions w d commits func =
      let (t, answer) = claim_attempt s ctx w.0 d in
      execute_claimed ctx' functions (t, w.1) d commits func answer
