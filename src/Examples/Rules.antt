-- ===== src/Examples/Rules.antt =====
-- Instances of the theorems on queues, settings, retry rules, time limits and the scheduler.
use abstract_block_dumper.Prelude.{
  ℕ, ◌+◌, ◌≤◌, ◌≡◌, refl, String, none, some, ◌∷◌, [], All, lookup, insert,
}
use abstract_block_dumper.Numeric.{
  none_value, plus, real, integer, is_positive_number, is_non_negative_number, is_positive_integer,
  is_non_negative_integer,
}
use abstract_block_dumper.Queue.{Queue}
use abstract_block_dumper.Registry.Dumper.{get_queue, register_queues}
use abstract_block_dumper.Registry.Dumper.Laws.{register_queues_stable}
use abstract_block_dumper.Retry.Policy.{PolicyArguments, delay_seconds, post_init as check_policy}
use abstract_block_dumper.Retry.Policy.Laws.{accepted_delays}
use abstract_block_dumper.Retry.Schedule.{
  RetrySettings, Schedule, delay, get_retry_delay_seconds, staged_retry_policy, schedule_delay,
  cap_ticks, staged_delays,
}
use abstract_block_dumper.Settings.{Sweep}
use abstract_block_dumper.TimeLimits.{
  TaskOptions, check_time_limits, by_name, first_set, task_soft, task_hard, task_attribute_limit,
  config_limit,
}
use abstract_block_dumper.TimeLimits.Laws.{IsOrdered, check_time_limits-IsOrdered}
use abstract_block_dumper.Examples.Fixtures.{
  live, three_tries, registry, power, power-IsPower, product, no_settings,
}

register_queues_stable_example :
    get_queue (register_queues registry 2 (record live { throttle = none } ∷ [])).0 (some "live")
    ≡ some live
unfolding get_queue lookup
register_queues_stable_example =
    register_queues_stable registry 2 (record live { throttle = none } ∷ []) "live" live refl

abbrev policy_arguments : PolicyArguments
policy_arguments = record {
  max_attempts = integer (plus 3);
  give_up_after_blocks = none_value;
  fast_retry_attempts = integer (plus 3);
  fast_retry_delay = real (plus 5);
  backoff_start = integer (plus 0);
  backoff_multiplier = integer (plus 1);
  max_delay = real (plus 100);
}

accepted_delays_example :
    (delay_seconds power three_tries 2 ≤ delay_seconds power three_tries (4 + 2))
    × (delay_seconds power three_tries (4 + 2) ≤ 100)
unfolding check_policy is_positive_number is_non_negative_number is_positive_integer
    is_non_negative_integer
accepted_delays_example = accepted_delays power power-IsPower policy_arguments 2 4 refl

abbrev staged : RetrySettings
staged = record no_settings { backoff_start = some (plus 60) }

abbrev staged_schedule : Schedule
staged_schedule = record {
  fast_retry_attempts = 2;
  fast_retry_delay = 5000000;
  backoff_start = 60;
  backoff_multiplier = 2000000;
}

staged_delays_example :
    (a : ℕ) × (get_retry_delay_seconds power staged 1 ≡ delay a)
    × (a ≤ 5000000)
    × (5000000 ≤ cap_ticks staged)
unfolding is_non_negative_integer staged_retry_policy get_retry_delay_seconds schedule_delay product
staged_delays_example =
    staged_delays power power-IsPower staged staged_schedule 1 4 5000000 refl refl refl

abbrev sweep : Sweep
sweep = record { timeout = some 1000; interval = 100; batch_size = 10 }

abbrev options : TaskOptions
options = record { celery_kwargs = []; base_limit = λ name. none; config_limit = λ name. some 900 }

abbrev no_config : TaskOptions
no_config = record { celery_kwargs = []; base_limit = λ name. none; config_limit = λ name. none }

abbrev slow : Queue
slow = record live { time_limit = none; soft_time_limit = some 2000 }

check_time_limits-IsOrdered_example :
    All
      (λ (e : String × Queue).
        IsOrdered
          (first_set e.1.soft_time_limit (task_soft no_config))
          (first_set e.1.time_limit (task_hard no_config (some 2030))))
      (by_name (slow ∷ []) [])
    × IsOrdered (task_soft no_config) (task_hard no_config (some 2030))
unfolding check_time_limits insert lookup task_attribute_limit config_limit
check_time_limits-IsOrdered_example =
    check_time_limits-IsOrdered no_config (slow ∷ []) (some 2030) refl
