-- ===== src/Declaration.antt =====
-- _internal/services/block_dumper.py, and the registration in v1/decorators.py: how tasks are declared.
--
-- Celery's part, the task object made from the function, is left out: a function is known by its
-- executable path, and the limits of the app's config and the task's base class come with the options.
pub mod Laws
use abstract_block_dumper.Prelude.{
  ℕ, ◌*◌, String, Bool, true, false, not, ◌&&◌, Option, none, some, List, ◌∷◌, [], Dict, lookup,
  insert, update, str_eq, is_none, is_some, if◌then◌else◌,
}
use abstract_block_dumper.Numeric.{Value, text, real, plus, ticks, unit, is_positive_number}
use abstract_block_dumper.Queue.{Queue, message_options, strip, is_empty, name_text}
use abstract_block_dumper.Registry.Dumper.{
  BlockDumper, DumperRegistry, Outcome, registered, register_dumper, register_queues,
}
use abstract_block_dumper.Registry.Items.{
  RegistryItem, Target, named, policy, BlockSource, latest, finalized, register_item,
}
use abstract_block_dumper.Settings.{Settings, Read, valid, value_error, check_recovery_settings}
use abstract_block_dumper.TimeLimits.{TaskOptions, default_time_limit, check_time_limits}

-- A `BlockDumper` object; `queues` is `_queues`.
pub record Dumper : Type 0 where
  pub identity : BlockDumper
  pub block_time : ℕ
  pub queues : Dict Queue

-- What a declaration reads and writes: `dumper_registry`, `task_registry` and the dumper.
pub record Process : Type 0 where
  pub registry : DumperRegistry
  pub functions : List RegistryItem
  pub dumper : Dumper

pub data QueueArgument : Type 0 where
  queue : Queue → QueueArgument
  other_value : QueueArgument

pub data Condition : Type 0 where
  always : Condition
  callable : (ℕ → String → Option Bool) → Condition
  not_callable : Condition

pub record TaskArguments : Type 0 where
  pub executable_path : String
  pub live_queue : QueueArgument
  pub backfill_queue : Option QueueArgument
  pub condition : Condition
  pub args : Option (List String)
  pub is_finalized : Bool
  pub backfilling_lookback : Option ℕ
  pub options : TaskOptions

pub data Declared : Type 0 where
  declared not_a_queue lookback_without_queue condition_not_callable : Declared
  invalid_settings limits_conflict : Declared
  queue_conflict : Outcome → Declared

-- `BlockDumper.__init__`; none where the block time is invalid.
unfoldable pub init :
    Bool → DumperRegistry → BlockDumper → Value → Option (DumperRegistry × Outcome)
init apps_ready g identity block_time_seconds =
    if not (is_positive_number block_time_seconds)
    then none
    else some (register_dumper apps_ready g identity)

-- The options of a message, as `LiveLimitsTask.apply_async` completes them.
abbrev pub goes_to : Option Value → String → Bool
goes_to none name = true
goes_to (some (text other)) name = str_eq other name
goes_to (some v) name = false

unfoldable pub live_limits_options : Queue → Dict Value → Dict Value
live_limits_options live_queue options =
    if goes_to (lookup "queue" options) live_queue.name
    then update (message_options live_queue) options
    else options

abbrev pub source_of : Bool → BlockSource
source_of true = finalized
source_of false = latest

abbrev pub always_true : ℕ → String → Option Bool
always_true block args = some true

abbrev pub effective_condition : Condition → Option (ℕ → String → Option Bool)
effective_condition always = some always_true
effective_condition (callable test) = some test
effective_condition not_callable = none

-- The queues of the arguments, as `Queue` objects.
abbrev pub checked_queues : QueueArgument → Option QueueArgument → Option (Queue × Option Queue)
checked_queues other_value backfill = none
checked_queues (queue q) none = some (q, none)
checked_queues (queue q) (some other_value) = none
checked_queues (queue q) (some (queue b)) = some (q, some b)

abbrev pub with_backfill : Queue → Option Queue → List Queue
with_backfill live none = live ∷ []
with_backfill live (some b) = live ∷ b ∷ []

abbrev pub policy_of : Option Queue → Option Target
policy_of none = none
policy_of (some q) = some (policy q)

-- `self._queues.update({queue.name: queue for queue in queues})`
abbrev pub put_queues : List Queue → Dict Queue → Dict Queue
put_queues [] d = d
put_queues (q ∷ rest) d = put_queues rest (insert q.name q d)

-- The item that `decorator` registers.
unfoldable pub item_of :
    Dumper → TaskArguments → (ℕ → String → Option Bool) → Queue → Option Queue → RegistryItem
item_of d a test live backfill = record {
  condition = test;
  executable_path = a.executable_path;
  args = a.args;
  block_source = source_of a.is_finalized;
  backfilling_lookback = a.backfilling_lookback;
  backfill_queue = policy_of backfill;
  celery_kwargs = a.options.celery_kwargs;
  live_queue = some live;
  block_time = d.block_time;
}

-- The registration of the queues has answered.
unfoldable pub record_task :
    Process
    → TaskArguments
    → (ℕ → String → Option Bool)
    → Queue
    → Option Queue
    → DumperRegistry × Outcome
    → Process × Declared
unfolding item_of register_item
record_task p a test live backfill (g, registered) = (
  record {
    registry = g;
    functions = register_item p.functions (item_of p.dumper a test live backfill);
    dumper = record p.dumper { queues = put_queues (with_backfill live backfill) p.dumper.queues };
  },
  declared,
)
record_task p a test live backfill (g, o) = (record p { registry = g }, queue_conflict o)

-- The default hard limit is known.
unfoldable pub checked_limits :
    Process
    → TaskArguments
    → (ℕ → String → Option Bool)
    → Queue
    → Option Queue
    → Read (Option ℕ)
    → Process × Declared
unfolding record_task
checked_limits p a test live backfill value_error = (p, invalid_settings)
checked_limits p a test live backfill (valid default) =
    if not (check_time_limits a.options (with_backfill live backfill) default)
    then (p, limits_conflict)
    else record_task p a test live backfill
        (register_queues p.registry p.dumper.identity.id (with_backfill live backfill))

-- The settings are checked.
unfoldable pub checked_settings :
    Settings
    → Process
    → TaskArguments
    → (ℕ → String → Option Bool)
    → Queue
    → Option Queue
    → Read (Unit {0})
    → Process × Declared
unfolding checked_limits
checked_settings s p a test live backfill value_error = (p, invalid_settings)
checked_settings s p a test live backfill (valid u) =
    checked_limits p a test live backfill
      (default_time_limit s a.options (with_backfill live backfill))

unfoldable pub checked_condition :
    Settings
    → Process
    → TaskArguments
    → Queue
    → Option Queue
    → Option (ℕ → String → Option Bool)
    → Process × Declared
unfolding checked_settings
checked_condition s p a live backfill none = (p, condition_not_callable)
checked_condition s p a live backfill (some test) =
    checked_settings s p a test live backfill (check_recovery_settings s)

unfoldable pub checked_arguments :
    Settings → Process → TaskArguments → Option (Queue × Option Queue) → Process × Declared
unfolding checked_condition
checked_arguments s p a none = (p, not_a_queue)
checked_arguments s p a (some (live, backfill)) =
    if is_some a.backfilling_lookback && is_none backfill
    then (p, lookback_without_queue)
    else checked_condition s p a live backfill (effective_condition a.condition)

-- `BlockDumper.block_task`, with the decorator applied to the function.
unfoldable pub block_task : Settings → Process → TaskArguments → Process × Declared
unfolding checked_arguments
block_task s p a = checked_arguments s p a (checked_queues a.live_queue a.backfill_queue)

-- `block_task` of v1/decorators.py: the name of the backfill queue, stripped; none where it raises.
unfoldable pub effective_backfill_queue : Option Value → Option (Option Target)
effective_backfill_queue none = some none
effective_backfill_queue (some v) = elim (name_text v) [
  | none ↦ none
  | some name ↦ if is_empty (strip name) then none else some (some (named (strip name)))
]

unfoldable pub named_item :
    TaskArguments → (ℕ → String → Option Bool) → Option Target → RegistryItem
named_item a test backfill = record {
  condition = test;
  executable_path = a.executable_path;
  args = a.args;
  block_source = source_of a.is_finalized;
  backfilling_lookback = a.backfilling_lookback;
  backfill_queue = backfill;
  celery_kwargs = a.options.celery_kwargs;
  live_queue = none;
  block_time = 12 * unit;
}

-- A task that is declared with `@block_task`; the second answer is false where it raises.
unfoldable pub named_task :
    List RegistryItem → TaskArguments → Option Value → List RegistryItem × Bool
unfolding effective_backfill_queue named_item register_item
named_task functions a backfill_queue = elim (effective_backfill_queue backfill_queue) [
  | none ↦ (functions, false)
  | some backfill ↦ elim (effective_condition a.condition) [
    | none ↦ (functions, false)
    | some test ↦ (register_item functions (named_item a test backfill), true)
  ]
]
