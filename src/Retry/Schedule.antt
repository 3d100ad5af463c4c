-- ===== src/Retry/Schedule.antt =====
-- The settings-based retry schedule of _internal/dal/django_dal.py (`_RetryPolicy` and its two
-- sources). Minutes and seconds are in ticks; none stands for a setting that is not defined.
use abstract_block_dumper.Prelude.{
  ℕ, zero, suc, ◌+◌, ◌-◌, ◌*◌, ◌≤◌, ◌≡◌, refl, Bool, true, false, not, ◌||◌, Option, none, some,
  leb, ltb, min, max, or_else, is_some, if◌then◌else◌, arith, Option-cases, Bool-cases, inl, inr,
}
use native.Mathlib.Nat.{zero-add, suc-add, le_refl, le_trans}
use abstract_block_dumper.Numeric.{
  Value, integer, ℤ, plus, minus, is_non_negative, is_non_negative_integer, whole, unit,
}
use abstract_block_dumper.Retry.Policy.{Power}
use abstract_block_dumper.Retry.Policy.Laws.{IsPower}

pub record Schedule : Type 0 where
  pub fast_retry_attempts : ℕ
  pub fast_retry_delay : ℕ
  pub backoff_start : ℕ
  pub backoff_multiplier : ℕ

-- `_RetryPolicy.delay_seconds`; none where Python raises `OverflowError`.
unfoldable pub schedule_delay : Power → Schedule → ℕ → Option ℕ
schedule_delay power p attempt_count =
    if leb attempt_count p.fast_retry_attempts
    then some p.fast_retry_delay
    else elim (power.scaled p.backoff_start p.backoff_multiplier
        (attempt_count - p.fast_retry_attempts - 1)) [
          | none ↦ none
          | some delay ↦ some (max p.fast_retry_delay delay)
        ]

pub record RetrySettings : Type 0 where
  pub fast_retry_attempts : Option Value
  pub fast_retry_delay : Option ℤ
  pub backoff_start : Option ℤ
  pub backoff_multiplier : Option ℤ
  -- `BLOCK_TASK_RETRY_BACKOFF`
  pub retry_backoff : Option ℕ
  -- `BLOCK_TASK_MAX_RETRY_DELAY_MINUTES`
  pub max_retry_delay_minutes : Option ℕ

pub data Delay : Type 0 where
  delay : ℕ → Delay
  invalid_settings overflow_error : Delay

abbrev pub ticks_of : ℤ → ℕ
ticks_of (plus n) = n
ticks_of (minus n) = 0

abbrev below_one : ℤ → Bool
below_one (plus n) = ltb n unit
below_one (minus n) = true

-- `_legacy_retry_policy`: the setting is in minutes, so its value is the multiplier too.
unfoldable pub legacy_retry_policy : RetrySettings → Schedule
legacy_retry_policy s = record {
  fast_retry_attempts = 0;
  fast_retry_delay = 0;
  backoff_start = or_else s.retry_backoff unit * 60;
  backoff_multiplier = or_else s.retry_backoff unit;
}

-- `_staged_retry_policy` with `_validate_staged_retry_policy`; none stands for `ValueError`.
unfoldable pub staged_retry_policy : RetrySettings → Option Schedule
staged_retry_policy s =
    let attempts = or_else s.fast_retry_attempts (integer (plus 2)) in
    let fast_delay = or_else s.fast_retry_delay (plus (5 * unit)) in
    let start = or_else s.backoff_start (plus (60 * unit)) in
    let multiplier = or_else s.backoff_multiplier (plus (2 * unit)) in
    if not (is_non_negative_integer attempts)
    then none
    else if not (is_non_negative fast_delay)
    then none
    else if not (is_non_negative start)
    then none
    else if below_one multiplier
    then none
    else some (record {
      fast_retry_attempts = whole attempts;
      fast_retry_delay = ticks_of fast_delay;
      backoff_start = ticks_of start;
      backoff_multiplier = ticks_of multiplier;
    })

abbrev pub uses_staged_settings : RetrySettings → Bool
uses_staged_settings s =
    is_some s.fast_retry_attempts
    || is_some s.fast_retry_delay
    || is_some s.backoff_start
    || is_some s.backoff_multiplier

abbrev pub cap_ticks : RetrySettings → ℕ
cap_ticks s = or_else s.max_retry_delay_minutes (1440 * unit) * 60

abbrev capped_delay : ℕ → Option ℕ → Delay
capped_delay cap none = overflow_error
capped_delay cap (some d) = delay (min d cap)

abbrev delay_by : Power → ℕ → ℕ → Option Schedule → Delay
delay_by power cap attempt_count none = invalid_settings
delay_by power cap attempt_count (some p) = capped_delay cap (schedule_delay power p attempt_count)

-- `_get_retry_delay_seconds`
unfoldable pub get_retry_delay_seconds : Power → RetrySettings → ℕ → Delay
get_retry_delay_seconds power s attempt_count =
    delay_by power (cap_ticks s) attempt_count
      (if uses_staged_settings s then staged_retry_policy s else some (legacy_retry_policy s))

staged_multiplier :
    (s : RetrySettings) (p : Schedule)
    → staged_retry_policy s ≡ some p
    → unit ≤ p.backoff_multiplier
unfolding staged_retry_policy
staged_multiplier s p h = ground arith

module _ (power : Power) (laws : IsPower power) where
  -- One more factor: what can be computed then could be computed before, and was no larger.
  scaled_step :
      (s m k b : ℕ)
      → unit ≤ m
      → power.scaled s m (suc k) ≡ some b
      → (a : ℕ) × (power.scaled s m k ≡ some a) × (a ≤ b)
  scaled_step s m k b u h = elim (Option-cases (power.scaled s m k)) [
    | inl out ↦ cc (laws.stays_out s m k u out)
    | inr (a, e) ↦ (a, e, laws.grows s m k a b u e h)
  ]

  late_step :
      (p : Schedule) (n b : ℕ)
      → unit ≤ p.backoff_multiplier
      → leb n p.fast_retry_attempts ≡ false
      → schedule_delay power p (suc n) ≡ some b
      → (a : ℕ) × (schedule_delay power p n ≡ some a) × (a ≤ b)
  unfolding schedule_delay
  late_step p n b u late h =
      elim (Option-cases
        (power.scaled p.backoff_start p.backoff_multiplier (suc (n - p.fast_retry_attempts - 1)))) [
          | inl out ↦ ground (arith, next)
          | inr (b', e) ↦
              let (a, f, le) =
                scaled_step p.backoff_start p.backoff_multiplier (n - p.fast_retry_attempts - 1) b'
                  u e in
              (max p.fast_retry_delay a, rw late (rw f refl), ground (arith, next))
        ]
    where
      next : suc n - p.fast_retry_attempts - 1 ≡ suc (n - p.fast_retry_attempts - 1)
      next = ground arith

  schedule_step :
      (p : Schedule) (n b : ℕ)
      → unit ≤ p.backoff_multiplier
      → schedule_delay power p (suc n) ≡ some b
      → (a : ℕ) × (schedule_delay power p n ≡ some a) × (a ≤ b)
  schedule_step p n b u h = elim (Bool-cases (leb n p.fast_retry_attempts)) [
    | inl early ↦ (
      p.fast_retry_delay,
      unfold schedule_delay in rw early refl,
      unfold schedule_delay in ground arith,
    )
    | inr late ↦ late_step p n b u late h
  ]

  schedule_grows :
      (p : Schedule) (n d b : ℕ)
      → unit ≤ p.backoff_multiplier
      → schedule_delay power p (d + n) ≡ some b
      → (a : ℕ) × (schedule_delay power p n ≡ some a) × (a ≤ b)
  schedule_grows p n zero b u h = (b, rw zero-add at h, le_refl b)
  schedule_grows p n (suc d) b u h =
      let (c, e, le) = schedule_step p (d + n) b u (rw suc-add at h) in
      let (a, f, le') = schedule_grows p n d c u e in (a, f, le_trans le' le)

  staged_value :
      (s : RetrySettings) (p : Schedule) (n : ℕ)
      → uses_staged_settings s ≡ true
      → staged_retry_policy s ≡ some p
      → get_retry_delay_seconds power s n ≡ capped_delay (cap_ticks s) (schedule_delay power p n)
  unfolding get_retry_delay_seconds
  staged_value s p n staged ok = rw staged (rw ok refl)

  capped_value :
      (cap b : ℕ) (o : Option ℕ)
      → capped_delay cap o ≡ delay b
      → (c : ℕ) × (o ≡ some c) × (b ≡ min c cap)
  capped_value cap b none h = cc
  capped_value cap b (some c) h = (c, refl, ground arith)

  -- Staged settings that are accepted give delays that do not fall from one try to a later one, as
  -- far as Python can compute them, and that never pass the cap.
  pub staged_delays :
      (s : RetrySettings) (p : Schedule) (n d b : ℕ)
      → uses_staged_settings s ≡ true
      → staged_retry_policy s ≡ some p
      → get_retry_delay_seconds power s (d + n) ≡ delay b
      → (a : ℕ) × (get_retry_delay_seconds power s n ≡ delay a) × (a ≤ b) × (b ≤ cap_ticks s)
  staged_delays s p n d b staged ok h =
      let (b', e, eb) =
        capped_value (cap_ticks s) b _ (rw (staged_value s p (d + n) staged ok) at h) in
      let (a', f, le) = schedule_grows p n d b' (staged_multiplier s p ok) e in
      (
        min a' (cap_ticks s),
        rw (staged_value s p n staged ok) (rw f refl),
        omega (arith, eb, le),
        omega (arith, eb),
      )
