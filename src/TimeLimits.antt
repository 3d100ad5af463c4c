-- ===== src/TimeLimits.antt =====
-- _internal/services/time_limits.py: the time limits of `BlockDumper` tasks, in ticks.
--
-- Celery's side is a parameter: the limits of the task's base class and of the Celery config, under
-- the names "time_limit" and "soft_time_limit"; a limit of 0 counts as none.
pub mod Laws
use abstract_block_dumper.Prelude.{
  ℕ, zero, suc, ◌+◌, ◌≤◌, ◌<◌, ◌≡◌, String, Bool, true, false, not, ◌&&◌, ◌||◌, Option, none, some,
  List, ◌∷◌, [], ◌++◌, Dict, lookup, insert, leb, max, ◌==◌, is_none, if◌then◌else◌, arith, All,
  Bool-cases, inl, inr,
}
use abstract_block_dumper.Numeric.{Value, none_value, boolean, integer, real, ticks, plus}
use abstract_block_dumper.Queue.{Queue}
use abstract_block_dumper.Settings.{
  Settings, Read, valid, value_error, ◌>>=◌, Sweep, stale_task_settings, recovery_margin_seconds,
}

pub record TaskOptions : Type 0 where
  pub celery_kwargs : Dict Value
  pub base_limit : String → Option ℕ
  pub config_limit : String → Option ℕ

-- A limit that is set: `x if x else None`
abbrev pub set_limit : Option ℕ → Option ℕ
set_limit none = none
set_limit (some n) = if n == 0 then none else some n

-- `a or b`, of limits that are not 0; `_first_set`
abbrev pub first_set : Option ℕ → Option ℕ → Option ℕ
first_set none b = b
first_set (some a) b = some a

unfoldable pub task_attribute_limit : TaskOptions → String → Option ℕ
task_attribute_limit o name = elim (lookup name o.celery_kwargs) [
  | none ↦ set_limit (o.base_limit name)
  | some v ↦ set_limit (some (ticks v))
]

unfoldable pub config_limit : TaskOptions → String → Option ℕ
config_limit o name = set_limit (o.config_limit name)

-- `has_default_hard_limit`, under a valid stuck-task timeout or none.
unfoldable pub has_default_hard_limit : Option ℕ → TaskOptions → Bool
has_default_hard_limit none o = false
has_default_hard_limit (some timeout) o =
    is_none (lookup "time_limit" o.celery_kwargs)
    && is_none (task_attribute_limit o "time_limit")
    && is_none (config_limit o "time_limit")

-- `max([start, *(limit + margin for limit in limits if limit)])`
abbrev pub max_above : ℕ → ℕ → List (Option ℕ) → ℕ
max_above margin start [] = start
max_above margin start (none ∷ rest) = max_above margin start rest
max_above margin start (some zero ∷ rest) = max_above margin start rest
max_above margin start (some (suc n) ∷ rest) = max_above margin (max start (suc n + margin)) rest

-- The soft limits of the queues without a hard limit of their own.
abbrev pub queue_soft_limits : List Queue → List (Option ℕ)
queue_soft_limits [] = []
queue_soft_limits (q ∷ rest) =
    (if is_none q.time_limit then q.soft_time_limit else none) ∷ queue_soft_limits rest

-- `soft_limits` of `default_time_limit_options`
abbrev pub soft_limits : TaskOptions → List Queue → List (Option ℕ)
soft_limits o queues =
    queue_soft_limits queues
    ++ task_attribute_limit o "soft_time_limit" ∷ config_limit o "soft_time_limit" ∷ []

unfoldable pub default_under : Settings → TaskOptions → List Queue → Option ℕ → Read (Option ℕ)
unfolding has_default_hard_limit
default_under s o queues none = valid none
default_under s o queues (some timeout) =
    if has_default_hard_limit (some timeout) o
    then (do
      margin ← recovery_margin_seconds s
      valid (some (max_above margin timeout (soft_limits o queues))))
    else valid none

-- The `time_limit` of `default_time_limit_options`, or none.
unfoldable pub default_time_limit : Settings → TaskOptions → List Queue → Read (Option ℕ)
unfolding default_under
default_time_limit s o queues = do
  sweep ← stale_task_settings s
  default_under s o queues sweep.timeout

-- A soft limit at or above the hard limit.
abbrev pub conflicts : Option ℕ → Option ℕ → Bool
conflicts (some soft) (some hard) = leb hard soft
conflicts _ _ = false

-- `{queue.name: queue for queue in queues}`
abbrev pub by_name : List Queue → Dict Queue → Dict Queue
by_name [] d = d
by_name (q ∷ rest) d = by_name rest (insert q.name q d)

abbrev pub any_conflict : Option ℕ → Option ℕ → Dict Queue → Bool
any_conflict soft hard [] = conflicts soft hard
any_conflict soft hard ((name, q) ∷ rest) =
    conflicts (first_set q.soft_time_limit soft) (first_set q.time_limit hard)
    || any_conflict soft hard rest

abbrev pub task_soft : TaskOptions → Option ℕ
task_soft o =
    first_set (task_attribute_limit o "soft_time_limit") (config_limit o "soft_time_limit")

abbrev pub task_hard : TaskOptions → Option ℕ → Option ℕ
task_hard o default =
    first_set (task_attribute_limit o "time_limit")
      (first_set (set_limit default) (config_limit o "time_limit"))

-- `check_time_limits`: false where it raises.
unfoldable pub check_time_limits : TaskOptions → List Queue → Option ℕ → Bool
check_time_limits o queues default =
    not (any_conflict (task_soft o) (task_hard o default) (by_name queues []))
