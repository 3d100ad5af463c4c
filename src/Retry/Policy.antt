-- ===== src/Retry/Policy.antt =====
-- _internal/services/retry_policy.py: the retry policy of a `BlockDumper` queue.
--
-- Delays are in ticks (`Numeric.unit` to a second). Powers of floats are a parameter, `Power`.
pub mod Laws
use abstract_block_dumper.Prelude.{
  ℕ, zero, suc, ◌+◌, ◌-◌, ◌*◌, ◌≤◌, ◌<◌, ◌≡◌, Bool, true, false, not, ◌&&◌, ◌||◌, Option, none,
  some, ltb, leb, ◌==◌, min, max, if◌then◌else◌,
}
use abstract_block_dumper.Numeric.{
  Value, none_value, is_positive_integer, is_non_negative_integer, is_non_negative_number, ticks,
  whole, unit,
}

pub data PolicyError : Type 0 where
  max_attempts_invalid : PolicyError
  give_up_after_blocks_invalid : PolicyError
  fast_retry_attempts_invalid : PolicyError
  fast_retry_delay_invalid : PolicyError
  backoff_start_invalid : PolicyError
  max_delay_invalid : PolicyError
  backoff_multiplier_invalid : PolicyError

-- The arguments of `RetryPolicy(...)` as the project wrote them.
pub record PolicyArguments : Type 0 where
  pub max_attempts : Value
  pub give_up_after_blocks : Value
  pub fast_retry_attempts : Value
  pub fast_retry_delay : Value
  pub backoff_start : Value
  pub backoff_multiplier : Value
  pub max_delay : Value

-- A policy that was accepted.
pub record RetryPolicy : Type 0 where
  pub max_attempts : Option ℕ
  pub give_up_after_blocks : Option ℕ
  pub fast_retry_attempts : ℕ
  pub fast_retry_delay : ℕ
  pub backoff_start : ℕ
  pub backoff_multiplier : ℕ
  pub max_delay : ℕ

pub data Checked : Type 0 where
  accepted : RetryPolicy → Checked
  refused : PolicyError → Checked

abbrev pub is_none_value : Value → Bool
is_none_value none_value = true
is_none_value _ = false

abbrev pub optional_whole : Value → Option ℕ
optional_whole v = if is_none_value v then none else some (whole v)

-- The test of a field that is None or a positive integer.
abbrev pub is_limit : Value → Bool
is_limit v = is_none_value v || is_positive_integer v

-- `__post_init__`: the first field that is wrong, in the source's order, or the policy.
unfoldable pub post_init : PolicyArguments → Checked
post_init a =
    if not (is_limit a.max_attempts)
    then refused max_attempts_invalid
    else if not (is_limit a.give_up_after_blocks)
    then refused give_up_after_blocks_invalid
    else if not (is_non_negative_integer a.fast_retry_attempts)
    then refused fast_retry_attempts_invalid
    else if not (is_non_negative_number a.fast_retry_delay)
    then refused fast_retry_delay_invalid
    else if not (is_non_negative_number a.backoff_start)
    then refused backoff_start_invalid
    else if not (is_non_negative_number a.max_delay)
    then refused max_delay_invalid
    else if not (is_non_negative_number a.backoff_multiplier)
        || ltb (ticks a.backoff_multiplier) unit
    then refused backoff_multiplier_invalid
    else accepted (record {
      max_attempts = optional_whole a.max_attempts;
      give_up_after_blocks = optional_whole a.give_up_after_blocks;
      fast_retry_attempts = whole a.fast_retry_attempts;
      fast_retry_delay = ticks a.fast_retry_delay;
      backoff_start = ticks a.backoff_start;
      backoff_multiplier = ticks a.backoff_multiplier;
      max_delay = ticks a.max_delay;
    })

-- `start * multiplier ** exponent` of Python's numbers, in ticks: `none` where Python raises
-- `OverflowError`.
pub record Power : Type 0 where
  pub scaled : ℕ → ℕ → ℕ → Option ℕ

unfoldable pub allows_retry : RetryPolicy → ℕ → Bool
allows_retry p attempt_count = elim p.max_attempts [ none ↦ true | some n ↦ ltb attempt_count n ]

unfoldable pub exponential_delay : Power → RetryPolicy → ℕ → ℕ
exponential_delay power p attempt_count =
    elim (power.scaled p.backoff_start p.backoff_multiplier
      (attempt_count - p.fast_retry_attempts - 1)) [
        | some delay ↦ delay
        | none ↦ if p.backoff_start == 0 then 0 else p.max_delay
      ]

-- Ticks before retrying an attempt that failed on try number `attempt_count`.
unfoldable pub delay_seconds : Power → RetryPolicy → ℕ → ℕ
unfolding exponential_delay
delay_seconds power p attempt_count =
    let delay =
      if leb attempt_count p.fast_retry_attempts
      then p.fast_retry_delay
      else max p.fast_retry_delay (exponential_delay power p attempt_count) in
    min delay p.max_delay
