-- ===== src/Retry/Policy/Laws.antt =====
-- The retry policy: what a constructed policy satisfies, and the shape of its delays.
use abstract_block_dumper.Prelude.{
  ℕ, zero, suc, ◌+◌, ◌-◌, ◌≤◌, ◌<◌, ◌≡◌, refl, inl, inr, Option, none, some, arith, ◌==◌, min,
  if◌then◌else◌, Option-cases,
}
use native.Mathlib.Nat.{zero-add, suc-add, le_refl, le_trans}
use abstract_block_dumper.Numeric.{
  unit, is_positive_integer, is_non_negative_integer, is_non_negative_number,
}
use abstract_block_dumper.Retry.Policy.{
  RetryPolicy, PolicyArguments, accepted, post_init, Power, delay_seconds, exponential_delay,
}

-- What Python's arithmetic gives for powers of a base that is at least 1.
pub record IsPower (power : Power) : Type 0 where
  -- A further factor does not make a product smaller.
  pub grows :
      (s m k a b : ℕ)
      → unit ≤ m
      → power.scaled s m k ≡ some a
      → power.scaled s m (suc k) ≡ some b
      → a ≤ b
  -- What overflows once overflows with one more factor.
  pub stays_out :
      (s m k : ℕ) → unit ≤ m → power.scaled s m k ≡ none → power.scaled s m (suc k) ≡ none
  -- A product with 0 is 0.
  pub zero_start : (m k a : ℕ) → power.scaled 0 m k ≡ some a → a ≡ 0

pub record IsValid (p : RetryPolicy) : Type 0 where
  pub multiplier : unit ≤ p.backoff_multiplier
  pub attempts : (n : ℕ) → p.max_attempts ≡ some n → 0 < n
  pub blocks : (n : ℕ) → p.give_up_after_blocks ≡ some n → 0 < n

pub post_init-IsValid :
    (a : PolicyArguments) {p : RetryPolicy} → post_init a ≡ accepted p → IsValid p
unfolding post_init is_positive_integer is_non_negative_integer is_non_negative_number
post_init-IsValid a h = record {
  multiplier = ground arith;
  attempts = λ n e. ground arith;
  blocks = λ n e. ground arith;
}

module _ (power : Power) (laws : IsPower power) where
  -- The value of one exponential step, its overflow included, under the cap.
  abbrev capped : (start limit : ℕ) → Option ℕ → ℕ
  capped start limit none = if start == 0 then 0 else limit
  capped start limit (some delay) = min delay limit

  capped_bound : (s limit : ℕ) (o : Option ℕ) → capped s limit o ≤ limit
  capped_bound s limit none = ground arith
  capped_bound s limit (some a) = omega arith

  capped_zero : (m limit k : ℕ) → capped 0 limit (power.scaled 0 m k) ≡ 0
  capped_zero m limit k = elim (Option-cases (power.scaled 0 m k)) [
    | inl out ↦ rw out refl
    | inr (a, e) ↦ rw e (omega (arith, laws.zero_start m k a e))
  ]

  capped_step :
      (s m limit k : ℕ)
      → unit ≤ m
      → capped s limit (power.scaled s m k) ≤ capped s limit (power.scaled s m (suc k))
  capped_step zero m limit k h = omega (arith, capped_zero m limit k)
  capped_step (suc s) m limit k h = elim (Option-cases (power.scaled (suc s) m (suc k))) [
    | inl out ↦ rw out (ground (arith, capped_bound (suc s) limit (power.scaled (suc s) m k)))
    | inr (b, f) ↦ elim (Option-cases (power.scaled (suc s) m k)) [
      | inl out ↦ ground (arith, laws.stays_out (suc s) m k h out)
      | inr (a, e) ↦ rw (e, f) (omega (arith, laws.grows (suc s) m k a b h e f))
    ]
  ]

  min-exponential_delay :
      (p : RetryPolicy) (n : ℕ)
      → min (exponential_delay power p n) p.max_delay
        ≡ capped p.backoff_start p.max_delay
            (power.scaled p.backoff_start p.backoff_multiplier (n - p.fast_retry_attempts - 1))
  unfolding exponential_delay
  min-exponential_delay p n = ground arith

  exponential_step :
      (p : RetryPolicy) (n : ℕ)
      → IsValid p
      → p.fast_retry_attempts < n
      → min (exponential_delay power p n) p.max_delay
        ≤ min (exponential_delay power p (suc n)) p.max_delay
  exponential_step p n v h =
      let e : suc n - p.fast_retry_attempts - 1 ≡ suc (n - p.fast_retry_attempts - 1) =
        omega arith in
      rw (min-exponential_delay, min-exponential_delay, e)
        (capped_step p.backoff_start p.backoff_multiplier p.max_delay _ v.multiplier)

  delay_step :
      (p : RetryPolicy)
      → IsValid p
      → (n : ℕ) → delay_seconds power p n ≤ delay_seconds power p (suc n)
  unfolding delay_seconds
  delay_step p v n = ground (arith, exponential_step p n v)

  delays_grow :
      (p : RetryPolicy)
      → IsValid p
      → (n d : ℕ) → delay_seconds power p n ≤ delay_seconds power p (d + n)
  delays_grow p v n zero = rw zero-add (le_refl _)
  delays_grow p v n (suc d) = rw suc-add (le_trans (delays_grow p v n d) (delay_step p v (d + n)))

  -- In a valid policy no later retry waits less than an earlier one, and none waits longer than
  -- `max_delay`.
  pub delay_seconds_mono :
      (p : RetryPolicy) (n d : ℕ)
      → IsValid p
      → (delay_seconds power p n ≤ delay_seconds power p (d + n))
        × (delay_seconds power p (d + n) ≤ p.max_delay)
  unfolding delay_seconds
  delay_seconds_mono p n d v = (delays_grow p v n d, ground arith)

-- A policy that `RetryPolicy(...)` accepts has a multiplier of at least 1 and positive limits, so
-- its retries wait no less each time and never longer than `max_delay`.
pub accepted_delays :
    (power : Power)
    → IsPower power
    → (a : PolicyArguments) {p : RetryPolicy} (n d : ℕ) → post_init a ≡ accepted p
    → (delay_seconds power p n ≤ delay_seconds power p (d + n))
      × (delay_seconds power p (d + n) ≤ p.max_delay)
accepted_delays power laws a {p} n d h = delay_seconds_mono power laws p n d (post_init-IsValid a h)
