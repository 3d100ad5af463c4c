-- ===== src/Attempt.antt =====
-- models.py: the `TaskAttempt` row. Instants and durations are in ticks of one microsecond.
--
-- A row is known by its id, which `Attempt.Database` keeps beside it. `args_json` is the text that
-- `serialize_args` makes of an argument dict: a dict enters the model as that text.
pub mod Database
pub mod Transitions
pub mod Results
pub mod Reads
pub mod Reopen
pub mod Events
pub mod Changes
pub mod Invariant
pub mod Lease
pub mod Finality
pub mod Counting
pub mod Limit
pub mod Lifecycle
use abstract_block_dumper.Prelude.{ℕ, String, Bool, true, false, Option, none}

pub data Status : Type 0 where
  pending running success failed : Status

pub data GiveUpReason : Type 0 where
  attempts block_age manual : GiveUpReason

pub record TaskAttempt : Type 0 where
  pub block_number : ℕ
  pub executable_path : String
  pub args_json : String
  pub status : Status
  pub celery_task_id : Option String
  pub execution_result : Option String
  pub celery_queue_override : Option String
  pub dispatch_queue : Option String
  pub dispatched_at : Option ℕ
  pub lease_expires_at : Option ℕ
  pub last_attempted_at : Option ℕ
  pub attempt_count : ℕ
  pub next_retry_at : Option ℕ
  pub give_up_at : Option ℕ
  pub give_up_reason : Option GiveUpReason
  pub created_at : ℕ
  pub updated_at : ℕ

abbrev pub is_pending : Status → Bool
is_pending pending = true
is_pending _ = false

abbrev pub is_running : Status → Bool
is_running running = true
is_running _ = false

abbrev pub is_success : Status → Bool
is_success success = true
is_success _ = false

abbrev pub is_failed : Status → Bool
is_failed failed = true
is_failed _ = false

-- The row that `get_or_create` inserts: PENDING, and the fields' defaults.
unfoldable pub fresh_attempt : ℕ → ℕ → String → String → TaskAttempt
fresh_attempt now block_number executable_path args_json = record {
  block_number = block_number;
  executable_path = executable_path;
  args_json = args_json;
  status = pending;
  celery_task_id = none;
  execution_result = none;
  celery_queue_override = none;
  dispatch_queue = none;
  dispatched_at = none;
  lease_expires_at = none;
  last_attempted_at = none;
  attempt_count = 0;
  next_retry_at = none;
  give_up_at = none;
  give_up_reason = none;
  created_at = now;
  updated_at = now;
}
