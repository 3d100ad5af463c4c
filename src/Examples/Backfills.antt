-- ===== src/Examples/Backfills.antt =====
-- Instances of the theorems on gaps, backfills, the waiting gate and declarations.
use abstract_block_dumper.Prelude.{
  ℕ, ◌≡◌, refl, Bool, true, false, not, Option, none, some, List, ◌∷◌, [], ◌==◌, ◌||◌, arith,
  length,
}
use abstract_block_dumper.Numeric.{plus, real, Value}
use abstract_block_dumper.Attempt.{failed}
use abstract_block_dumper.Backfill.{block_range}
use abstract_block_dumper.BackfillCommand.{Options, Session}
use abstract_block_dumper.BackfillScheduler.{start}
use abstract_block_dumper.BackfillScheduler.DryRun.{run_dry_run, prefetch_executed_blocks}
use abstract_block_dumper.BackfillScheduler.DryRun.Counts.{due_tasks}
use abstract_block_dumper.BackfillScheduler.DryRun.Laws.{IsPreview, run_dry_run-IsPreview}
use abstract_block_dumper.BackfillScheduler.Estimate.{SendsWithin, start_estimate}
use abstract_block_dumper.BackfillScheduler.Moments.{Moment}
use abstract_block_dumper.Declaration.{Process, TaskArguments, queue, always}
use abstract_block_dumper.Gaps.{Gap, find_gaps, total_missing}
use abstract_block_dumper.Gaps.Laws.{blocks_of, missing, find_gaps_blocks}
use abstract_block_dumper.Gaps.Roundtrip.{AreGaps, covers, find_gaps_roundtrip}
use abstract_block_dumper.Registry.Items.{policy}
use abstract_block_dumper.Throttle.{Gate, admit}
use abstract_block_dumper.Throttle.Waits.{Explains, admit-Explains}
use abstract_block_dumper.TimeLimits.{TaskOptions}
use abstract_block_dumper.Examples.Fixtures.{at, row, item, live, context, registry}
use abstract_block_dumper.Examples.Memory.{Rows, memory}
use abstract_block_dumper.Examples.Sending.{settings, nothing_sent}

-- Blocks 5 and 6 are processed.
abbrev five_and_six : ℕ → Bool
five_and_six b = b == 5 || b == 6

find_gaps_blocks_example :
    let gaps = find_gaps 3 9 five_and_six in
    (blocks_of gaps ≡ missing five_and_six (block_range 3 9))
    × AreGaps 3 9 gaps
    × (total_missing gaps ≡ length (missing five_and_six (block_range 3 9)))
find_gaps_blocks_example = find_gaps_blocks 3 9 five_and_six

find_gaps_test :
    find_gaps 3 9 five_and_six ≡ record { start = 3; end = 4 } ∷ record { start = 7; end = 9 } ∷ []
unfolding find_gaps
find_gaps_test = refl

abbrev two_gaps : List Gap
two_gaps = record { start = 3; end = 4 } ∷ record { start = 7; end = 9 } ∷ []

find_gaps_roundtrip_example : find_gaps 3 9 (λ b. not (covers two_gaps b)) ≡ two_gaps
find_gaps_roundtrip_example = find_gaps_roundtrip 3 9 two_gaps (omega arith)

abbrev one_poll : Value
one_poll = real (plus 5)

abbrev head_at : ℕ → Option ℕ
head_at now = some 120

-- The table is empty, and nothing stops the backfill.
abbrev quiet : ℕ → Moment Rows
quiet b = record { is_running = true; interrupted = false; now = at 20; table = [] }

run_dry_run-IsPreview_example :
    IsPreview
      (due_tasks (prefetch_executed_blocks memory [] 100 102 (item ∷ [])) (item ∷ []))
      (block_range 100 102)
      (run_dry_run memory [] (item ∷ []) 100 102)
run_dry_run-IsPreview_example = run_dry_run-IsPreview memory [] (item ∷ []) 100 102

start_estimate_example :
    SendsWithin memory settings one_poll head_at
      (run_dry_run memory [] (item ∷ []) 100 102)
      nothing_sent
      (start memory settings one_poll head_at
        (context 20)
        false
        (item ∷ [])
        quiet
        []
        100
        102
        nothing_sent)
unfolding start
start_estimate_example =
    start_estimate memory settings one_poll head_at (context 20) (item ∷ []) quiet [] 100 102
      nothing_sent refl

-- A gate that waits, and sees an empty queue after its first sleep.
abbrev waiting_gate : Gate Rows
waiting_gate = record {
  wait = true;
  free = [];
  looks = record { should_continue = true; now = at 30; table = [] } ∷ [];
}

admit-Explains_example :
    Explains memory settings one_poll true waiting_gate.looks live 2
      (admit memory settings one_poll (at 20) [] waiting_gate (some (policy live)))
admit-Explains_example = admit-Explains memory settings one_poll (at 20) [] waiting_gate live 2 refl

abbrev no_options : TaskOptions
no_options = record { celery_kwargs = []; base_limit = λ name. none; config_limit = λ name. none }

abbrev new_task : TaskArguments
new_task = record {
  executable_path = "tasks.index";
  live_queue = queue live;
  backfill_queue = some (queue live);
  condition = always;
  args = none;
  is_finalized = false;
  backfilling_lookback = some 3;
  options = no_options;
}

abbrev process : Process
process = record {
  registry = registry;
  functions = [];
  dumper = record {
    identity = record { id = 1; celery_app = 1 };
    block_time = 12000000;
    queues = [];
  };
}

abbrev whole_range : Options
whole_range = record {
  from_block = none;
  to_block = none;
  rate_limit = plus 0;
  dry_run = false;
  no_gap_detection = false;
}

abbrev one_failed : Rows
one_failed = (1, row failed none none 3) ∷ []

abbrev session : ℕ → Session Rows
session b = record { now = at 20; table = []; moments = quiet; looks = []; interrupted = false }
