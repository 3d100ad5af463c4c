-- ===== src/Settings.antt =====
-- _internal/services/recovery_settings.py: the settings of the stuck-task sweep and the recovery
-- margin, and the lease of a claim. Each field is the value of the setting, or its default; numbers
-- of seconds are read in ticks.
use abstract_block_dumper.Prelude.{
  ℕ, ◌+◌, ◌≡◌, Bool, false, not, ◌||◌, Option, none, some, ◌==◌, if◌then◌else◌, arith,
}
use abstract_block_dumper.Numeric.{
  Value, is_positive_number, is_positive_integer, is_non_negative_number, ticks, whole,
}
use abstract_block_dumper.Retry.Policy.{is_none_value}

pub record Settings : Type 0 where
  pub stale_task_timeout : Value
  pub stale_task_sweep_interval : Value
  pub stale_task_sweep_batch_size : Value
  pub recovery_margin : Value
  -- `BLOCK_DUMPER_MAX_ATTEMPTS`
  pub max_attempt_limit : ℕ

pub data Read {ℓ} (A : Type ℓ) : Type ℓ where
  valid : A → Read A
  value_error : Read A

infixl 5 ◌>>=◌
abbrev pub ◌>>=◌ {ℓ κ} : {A : Type ℓ} {B : Type κ} → Read A → (A → Read B) → Read B
valid a >>= f = f a
value_error >>= f = value_error

pub record Sweep : Type 0 where
  pub timeout : Option ℕ
  pub interval : ℕ
  pub batch_size : ℕ

unfoldable pub stale_task_settings : Settings → Read Sweep
stale_task_settings s =
    if not (is_none_value s.stale_task_timeout || is_positive_number s.stale_task_timeout)
    then value_error
    else if not (is_positive_number s.stale_task_sweep_interval)
    then value_error
    else if not (is_positive_integer s.stale_task_sweep_batch_size)
    then value_error
    else valid (record {
      timeout =
          if is_none_value s.stale_task_timeout then none else some (ticks s.stale_task_timeout);
      interval = ticks s.stale_task_sweep_interval;
      batch_size = whole s.stale_task_sweep_batch_size;
    })

unfoldable pub recovery_margin_seconds : Settings → Read ℕ
recovery_margin_seconds s =
    if not (is_non_negative_number s.recovery_margin)
    then value_error
    else valid (ticks s.recovery_margin)

unfoldable pub check_recovery_settings : Settings → Read (Unit {0})
check_recovery_settings s = do
  sweep ← stale_task_settings s
  margin ← recovery_margin_seconds s
  valid tt

-- Whether a limit is set: a limit of 0 counts as none.
abbrev pub is_set : Option ℕ → Bool
is_set none = false
is_set (some n) = not (n == 0)

abbrev pub limit_or_zero : Option ℕ → ℕ
limit_or_zero none = 0
limit_or_zero (some n) = n

unfoldable pub lease_seconds : Settings → Option ℕ → Read (Option ℕ)
lease_seconds s time_limit =
    if is_set time_limit
    then (do margin ← recovery_margin_seconds s; valid (some (limit_or_zero time_limit + margin)))
    else (do sweep ← stale_task_settings s; valid sweep.timeout)

-- Valid settings give every claim of a task with a hard time limit a lease that outlives the limit
-- by the margin; without a limit the lease is the stuck-task timeout.
pub lease_seconds_lem :
    (s : Settings) (time_limit : Option ℕ) {margin : ℕ} {sweep : Sweep}
    → recovery_margin_seconds s ≡ valid margin
    → stale_task_settings s ≡ valid sweep
    → lease_seconds s time_limit
      ≡ valid
          (if is_set time_limit then some (limit_or_zero time_limit + margin) else sweep.timeout)
unfolding lease_seconds
lease_seconds_lem s time_limit m w = ground arith
