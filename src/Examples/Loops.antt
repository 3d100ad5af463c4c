-- ===== src/Examples/Loops.antt =====
-- Instances of the theorems on the loop of the scheduler.
use abstract_block_dumper.Prelude.{ℕ, ◌≡◌, refl, true, false, Option, none, some, List, ◌∷◌, []}
use abstract_block_dumper.Dispatch.{Message}
use abstract_block_dumper.Registry.Items.{RegistryItem, BlockSource, latest, finalized}
use abstract_block_dumper.Scheduler.{Scheduler, head_of}
use abstract_block_dumper.Scheduler.Laws.{IsNotBehind}
use abstract_block_dumper.Scheduler.Loop.{
  Turn, LoopOptions, start, run_turns, group_by_block_source, append_to, add_to_groups,
}
use abstract_block_dumper.Scheduler.Loop.Grouping.{
  tasks_of, following, HasDistinctKeys, group_by_block_source-tasks,
}
use abstract_block_dumper.Scheduler.Loop.Isolation.{follow}
use abstract_block_dumper.Scheduler.Loop.Polls.{cursor}
use abstract_block_dumper.Scheduler.Loop.Progress.{is_polled, turn_reaches_head}
use abstract_block_dumper.Scheduler.Loop.Start.{has_task, start-follow}
use abstract_block_dumper.Examples.Fixtures.{item, context}
use abstract_block_dumper.Examples.Memory.{Rows, memory}
use abstract_block_dumper.Examples.Sending.{settings}

abbrev final_item : RegistryItem
final_item = record item { executable_path = "tasks.settle"; block_source = finalized }

abbrev tasks : List RegistryItem
tasks = item ∷ final_item ∷ item ∷ []

-- The finalized head cannot be resolved at first, and its second read fails.
abbrev starting : BlockSource → Option ℕ
starting latest = some 90
starting finalized = none

abbrev first_heads : BlockSource → Option ℕ
first_heads latest = some 100
first_heads finalized = some 80

abbrev second_heads : BlockSource → Option ℕ
second_heads latest = some 103
second_heads finalized = none

abbrev resolved : BlockSource → Option ℕ
resolved latest = none
resolved finalized = some 75

abbrev first_turn : Turn
first_turn = record {
  context = context 20;
  monotonic = 1000;
  starting_block = resolved;
  head = first_heads;
  row_locked = λ id. false;
}

abbrev second_turn : Turn
second_turn = record first_turn { context = context 25; monotonic = 1005; head = second_heads }

abbrev options : LoopOptions
options = record {
  lookback_enabled = true;
  stale_task_timeout = some 1000;
  stale_task_sweep_interval = 100;
  stale_task_batch_size = 10;
  has_queue_reconciler = true;
}

abbrev scheduler : Scheduler
scheduler = record {
  last_processed_blocks = record { latest_block = some 90; finalized_block = some 80 };
  observed_blocks = record { latest_block = none; finalized_block = none };
}

abbrev nothing : Rows × List Message
nothing = ([], [])

-- The latest head follows its own reads while the finalized one fails.
latest_follows :
    follow latest (first_turn ∷ second_turn ∷ []) (some 90, none) ≡ (some 103, some 103)
unfolding follow
latest_follows = refl

start-follow_example :
    cursor latest
      (start memory settings options tasks starting
        (first_turn ∷ second_turn ∷ [])
        ((scheduler, nothing), none)).0.0
    ≡ follow latest (first_turn ∷ second_turn ∷ []) (some 90, none)
unfolding has_task
start-follow_example =
    start-follow memory settings options tasks starting (first_turn ∷ second_turn ∷ []) latest
      scheduler nothing none refl

turn_reaches_head_example : IsNotBehind (some 80) (
    head_of
      (run_turns memory settings options tasks
        (group_by_block_source tasks)
        (first_turn ∷ second_turn ∷ [])
        ((scheduler, nothing), none)).0.0.last_processed_blocks
      finalized)
unfolding is_polled group_by_block_source append_to add_to_groups
turn_reaches_head_example =
    turn_reaches_head memory settings options tasks (group_by_block_source tasks) first_turn
      (second_turn ∷ []) finalized 80 scheduler nothing none refl refl refl

group_by_block_source-tasks_example :
    (tasks_of latest (group_by_block_source tasks) ≡ following latest tasks)
    × HasDistinctKeys (group_by_block_source tasks)
group_by_block_source-tasks_example = group_by_block_source-tasks tasks latest
