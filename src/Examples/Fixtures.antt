-- ===== src/Examples/Fixtures.antt =====
-- What the instances share: powers, a queue, a task and the context of a call.
use native.Mathlib.Nat.{mul-le-mul_left}
use abstract_block_dumper.Prelude.{
  ℕ, zero, suc, ◌*◌, ◌/◌, ◌≤◌, ◌≡◌, refl, String, true, Option, none, some, ◌∷◌, [], arith,
}
use abstract_block_dumper.Numeric.{unit}
use abstract_block_dumper.Attempt.{TaskAttempt, Status}
use abstract_block_dumper.Attempt.Transitions.{Now}
use abstract_block_dumper.Queue.{Queue}
use abstract_block_dumper.Dispatch.{Context}
use abstract_block_dumper.Registry.Dumper.{DumperRegistry}
use abstract_block_dumper.Registry.Items.{RegistryItem, policy, latest}
use abstract_block_dumper.Retry.Policy.{Power, RetryPolicy}
use abstract_block_dumper.Retry.Policy.Laws.{IsPower}
use abstract_block_dumper.Retry.Rules.{Rules}
use abstract_block_dumper.Retry.Schedule.{RetrySettings}

unfoldable pub product : ℕ → ℕ → ℕ → ℕ
product s m zero = s
product s m (suc k) = product s m k * m / unit

some_value : {a b : ℕ} → some a ≡ some b → a ≡ b
some_value e = cc

-- Powers without overflow, rounded down to ticks.
abbrev pub power : Power
power = record { scaled = λ s m k. some (product s m k) }

factor_grows : (x m : ℕ) → unit ≤ m → x ≤ x * m / unit
factor_grows x m h = omega (arith, mul-le-mul_left x h)

zero_product : (m k : ℕ) → product 0 m k ≡ 0
unfolding product
zero_product m zero = refl
zero_product m (suc k) = rw (zero_product m k) (omega arith)

pub power-IsPower : IsPower power
unfolding product
power-IsPower = record {
  grows = λ s m k a b u e f.
      omega (arith, factor_grows (product s m k) m u, some_value e, some_value f);
  stays_out = λ s m k u e. cc;
  zero_start = λ m k a e. omega (arith, some_value e, zero_product m k);
}

-- At most three tries, a retry after 5 ticks.
abbrev pub three_tries : RetryPolicy
three_tries = record {
  max_attempts = some 3;
  give_up_after_blocks = none;
  fast_retry_attempts = 3;
  fast_retry_delay = 5;
  backoff_start = 0;
  backoff_multiplier = 1000000;
  max_delay = 100;
}

abbrev pub live : Queue
live = record {
  name = "live";
  soft_time_limit = some 50;
  time_limit = some 60;
  message_ttl = some 100;
  throttle = some 2;
  retry = three_tries;
}

abbrev pub registry : DumperRegistry
registry = record {
  dumpers = [];
  created_after_django_loaded = [];
  queues = ("live", live) ∷ [];
  queue_owners = ("live", 1) ∷ [];
}

abbrev pub no_settings : RetrySettings
no_settings = record {
  fast_retry_attempts = none;
  fast_retry_delay = none;
  backoff_start = none;
  backoff_multiplier = none;
  retry_backoff = none;
  max_retry_delay_minutes = none;
}

abbrev pub rules : Rules
rules = record { registry = registry; power = power; max_attempt_limit = 3; settings = no_settings }

abbrev pub at : ℕ → Now
at n = record { db = n; local = n }

abbrev pub context : ℕ → Context
context n = record { rules = rules; accepts = λ m. true; now = at n }

-- A task of a `BlockDumper` that runs for each block.
abbrev pub item : RegistryItem
item = record {
  condition = λ block args. some true;
  executable_path = "tasks.index";
  args = none;
  block_source = latest;
  backfilling_lookback = some 3;
  backfill_queue = some (policy live);
  celery_kwargs = [];
  live_queue = some live;
  block_time = 12;
}

-- A row of block 100 in a given state.
abbrev pub row : Status → Option String → Option ℕ → ℕ → TaskAttempt
row status token lease count = record {
  block_number = 100;
  executable_path = "tasks.index";
  args_json = "{}";
  status = status;
  celery_task_id = token;
  execution_result = none;
  celery_queue_override = some "live";
  dispatch_queue = some "live";
  dispatched_at = some 10;
  lease_expires_at = lease;
  last_attempted_at = none;
  attempt_count = count;
  next_retry_at = none;
  give_up_at = none;
  give_up_reason = none;
  created_at = 10;
  updated_at = 10;
}
