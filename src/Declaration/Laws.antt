-- ===== src/Declaration/Laws.antt =====
-- _internal/services/block_dumper.py: a declaration takes effect as a whole, or not at all.
use abstract_block_dumper.Prelude.{
  ℕ, ◌≡◌, String, Bool, false, ◌&&◌, Option, some, ◌∷◌, [], ◌++◌, All, is_none, is_some,
}
use abstract_block_dumper.Queue.{Queue}
use abstract_block_dumper.Declaration.{
  Process, TaskArguments, Declared, declared, not_a_queue, lookback_without_queue,
  condition_not_callable, invalid_settings, limits_conflict, queue_conflict, effective_condition,
  checked_queues, with_backfill, item_of,
}
use abstract_block_dumper.Registry.Dumper.{get_queue}
use abstract_block_dumper.Settings.{Settings}

-- The task of an accepted declaration.
pub record IsTask (p : Process) (a : TaskArguments) (p' : Process) : Type 0 where
  pub live : Queue
  pub backfill : Option Queue
  pub test : ℕ → String → Option Bool
  pub given_queues : checked_queues a.live_queue a.backfill_queue ≡ some (live, backfill)
  pub given_condition : effective_condition a.condition ≡ some test
  pub lookback_has_queue : (is_some a.backfilling_lookback && is_none backfill) ≡ false
  pub registered_last : p'.functions ≡ p.functions ++ item_of p.dumper a test live backfill ∷ []
  pub found : All (λ q. get_queue p'.registry (some q.name) ≡ some q) (with_backfill live backfill)

unfoldable pub TakesEffect : Process → TaskArguments → Process × Declared → Type 0
TakesEffect p a (p', declared) = IsTask p a p'
TakesEffect p a (p', not_a_queue) = p' ≡ p
TakesEffect p a (p', lookback_without_queue) = p' ≡ p
TakesEffect p a (p', condition_not_callable) = p' ≡ p
TakesEffect p a (p', invalid_settings) = p' ≡ p
TakesEffect p a (p', limits_conflict) = p' ≡ p
TakesEffect p a (p', queue_conflict o) = p' ≡ p
