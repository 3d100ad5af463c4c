-- ===== src/Retry/Rules.antt =====
-- _internal/services/retry_rules.py: which retry rules apply to an attempt.
use abstract_block_dumper.Prelude.{ℕ, ◌<◌, ◌≡◌, Option, none, some, ltb, if◌then◌else◌, arith}
use abstract_block_dumper.Attempt.{TaskAttempt}
use abstract_block_dumper.Queue.{Queue}
use abstract_block_dumper.Registry.Dumper.{DumperRegistry, get_queue}
use abstract_block_dumper.Retry.Policy.{RetryPolicy, Power, allows_retry, delay_seconds}
use abstract_block_dumper.Retry.Schedule.{RetrySettings, Delay, delay, get_retry_delay_seconds}

-- `_Retries`: the policy of a queue, or the settings (`SettingsRetries`).
pub data Retries : Type 0 where
  by_policy : RetryPolicy → Retries
  by_settings : Retries

abbrev pub policy_of : Option Queue → Retries
policy_of none = by_settings
policy_of (some q) = by_policy q.retry

unfoldable pub retries_for : DumperRegistry → TaskAttempt → Retries
retries_for g r = policy_of (get_queue g r.dispatch_queue)

-- What the retry rules read besides the attempt.
pub record Rules : Type 0 where
  pub registry : DumperRegistry
  pub power : Power
  pub max_attempt_limit : ℕ
  pub settings : RetrySettings

-- None when no tries remain; the settings' delay may also fail.
pub data RetryDelay : Type 0 where
  no_retry : RetryDelay
  retry_in : ℕ → RetryDelay
  failure : RetryDelay

abbrev pub settings_delay : Delay → RetryDelay
settings_delay (delay d) = retry_in d
settings_delay _ = failure

abbrev pub delay_under : Rules → Retries → ℕ → RetryDelay
delay_under rules (by_policy p) count =
    if allows_retry p count then retry_in (delay_seconds rules.power p count) else no_retry
delay_under rules by_settings count =
    if ltb count rules.max_attempt_limit
    then settings_delay (get_retry_delay_seconds rules.power rules.settings count)
    else no_retry

unfoldable pub retry_delay : Rules → TaskAttempt → RetryDelay
unfolding retries_for
retry_delay rules r = delay_under rules (retries_for rules.registry r) r.attempt_count

-- An attempt under a queue policy with `max_attempts` gets a retry time only while tries are left.
pub retry_delay-limit :
    (rules : Rules) (r : TaskAttempt) (q : Queue) (limit d : ℕ)
    → get_queue rules.registry r.dispatch_queue ≡ some q
    → q.retry.max_attempts ≡ some limit
    → retry_delay rules r ≡ retry_in d
    → r.attempt_count < limit
unfolding retry_delay allows_retry
retry_delay-limit rules r q limit d g m h = ground arith
