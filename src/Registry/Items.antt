-- ===== src/Registry/Items.antt =====
-- _internal/dal/memory_registry.py: the registered tasks, and block sources.
--
-- A task is known by its executable path. An argument dict is its `serialize_args` text, and a
-- condition maps a block and that text to its answer, or to none where it raises.
use abstract_block_dumper.Prelude.{
  ℕ, String, Bool, Option, none, some, List, ◌∷◌, [], ◌++◌, Dict, first, str_eq, is_some,
}
use abstract_block_dumper.Numeric.{Value}
use abstract_block_dumper.Queue.{Queue}

-- services/block_source.py
pub data BlockSource : Type 0 where
  latest finalized : BlockSource

-- A queue name for tasks declared with `@block_task`, a queue for `BlockDumper` tasks.
pub data Target : Type 0 where
  named : String → Target
  policy : Queue → Target

pub record RegistryItem : Type 0 where
  pub condition : ℕ → String → Option Bool
  pub executable_path : String
  pub args : Option (List String)
  pub block_source : BlockSource
  pub backfilling_lookback : Option ℕ
  pub backfill_queue : Option Target
  pub celery_kwargs : Dict Value
  pub live_queue : Option Queue
  -- Ticks per block, at least 1.
  pub block_time : ℕ

abbrev pub args_or_empty : Option (List String) → List String
args_or_empty none = "{}" ∷ []
args_or_empty (some []) = "{}" ∷ []
args_or_empty (some (a ∷ rest)) = a ∷ rest

-- `self.args or [{}]`
unfoldable pub get_execution_args : RegistryItem → List String
get_execution_args item = args_or_empty item.args

-- The answer of the condition; none stands for `ConditionEvaluationError`.
unfoldable pub match_condition : RegistryItem → ℕ → String → Option Bool
match_condition item block_number args = item.condition block_number args

unfoldable pub requires_backfilling : RegistryItem → Bool
requires_backfilling item = is_some item.backfilling_lookback

unfoldable pub register_item : List RegistryItem → RegistryItem → List RegistryItem
register_item functions item = functions ++ item ∷ []

unfoldable pub get_by_executable_path : List RegistryItem → String → Option RegistryItem
get_by_executable_path functions path = first (λ item. str_eq item.executable_path path) functions
