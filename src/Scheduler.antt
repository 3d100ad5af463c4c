-- ===== src/Scheduler.antt =====
-- _internal/services/scheduler.py: `TaskScheduler`, which follows the chain heads.
--
-- The chain is a parameter: a read of a head gives its block, or none where it raises. The two block
-- sources each have their own entry in the scheduler's dicts.
pub mod Laws
pub mod Loop
use abstract_block_dumper.Prelude.{
  ℕ, ◌-◌, String, Bool, true, false, not, ◌&&◌, Option, none, some, List, ◌∷◌, [], leb, ltb, ◌==◌,
  if◌then◌else◌, is_some,
}
use abstract_block_dumper.Numeric.{Value}
use abstract_block_dumper.Attempt.Database.{Database}
use abstract_block_dumper.Backfill.{Pass}
use abstract_block_dumper.Backfill.Queued.{process_item_range}
use abstract_block_dumper.Backfill.Window.{process_item_range as process_window}
use abstract_block_dumper.Dispatch.{Context, World, archive_block_threshold}
use abstract_block_dumper.Processor.{process_block}
use abstract_block_dumper.Registry.Items.{RegistryItem, BlockSource, latest, finalized}
use abstract_block_dumper.Settings.{Settings}

-- A dict with block sources as keys.
pub record Heads : Type 0 where
  pub latest_block : Option ℕ
  pub finalized_block : Option ℕ

abbrev pub head_of : Heads → BlockSource → Option ℕ
head_of h latest = h.latest_block
head_of h finalized = h.finalized_block

abbrev pub put_head : Heads → BlockSource → ℕ → Heads
put_head h latest n = record h { latest_block = some n }
put_head h finalized n = record h { finalized_block = some n }

-- The dicts of `TaskScheduler`.
pub record Scheduler : Type 0 where
  pub last_processed_blocks : Heads
  pub observed_blocks : Heads

-- The setting `BLOCK_DUMPER_START_FROM_BLOCK`.
pub data StartFrom : Type 0 where
  from_current : StartFrom
  from_number : ℕ → StartFrom
  from_last : StartFrom

-- `latest_executed or block`
abbrev pub resume_at : Option ℕ → Option ℕ → Option ℕ
resume_at none current = current
resume_at (some n) current = if n == 0 then current else some n

-- `DefaultBlockStateResolver.get_starting_block`, with the latest recorded block of the head's tasks;
-- none where the read of the chain raises.
unfoldable pub get_starting_block : StartFrom → Option ℕ → Option ℕ → Option ℕ
get_starting_block from_current latest_executed current = current
get_starting_block (from_number n) latest_executed current = some n
get_starting_block from_last latest_executed current = resume_at latest_executed current

-- `_ensure_starting_block`: `resolved` is what the resolver gives now.
unfoldable pub ensure_starting_block : Scheduler → BlockSource → Option ℕ → Scheduler × Bool
ensure_starting_block st source resolved = elim (head_of st.last_processed_blocks source) [
  | some n ↦ (st, true)
  | none ↦ elim resolved [
    | none ↦ (st, false)
    | some n ↦
        (record st { last_processed_blocks = put_head st.last_processed_blocks source n }, true)
  ]
]

-- The gate of `_maybe_reconcile_stuck_tasks`.
unfoldable pub sweep_due : ℕ → Option ℕ → ℕ → Bool
sweep_due interval none now = true
sweep_due interval (some last) now = not (ltb (now - last) interval)

-- The times at which a sweep starts, of those at which the loop comes by.
unfoldable pub sweep_times : ℕ → Option ℕ → List ℕ → List ℕ
unfolding sweep_due
sweep_times interval last [] = []
sweep_times interval last (now ∷ rest) =
    let skipped = sweep_times interval last rest in
    let swept = sweep_times interval (some now) rest in
    if sweep_due interval last now then now ∷ swept else skipped

module _ (db : Database) (s : Settings) where
  -- The lookback window of one task; an exception is logged.
  unfoldable pub fill_window : Context → RegistryItem → ℕ → ℕ → ℕ → World db → World db
  fill_window ctx item from to head w = elim item.live_queue [
    | some q ↦
        (process_item_range db s Value.none_value ctx archive_block_threshold item from to head
          w).0.0
    | none ↦ (process_window db ctx archive_block_threshold item from to head w).0
  ]

  -- `_fill_lookback` for one task: the window is [head - lookback, head - 1], cut at 0.
  unfoldable pub fill_lookback_of : Context → RegistryItem → ℕ → Option ℕ → World db → World db
  unfolding fill_window
  fill_lookback_of ctx item head none w = w
  fill_lookback_of ctx item head (some lookback) w =
      let from = head - lookback in
      if leb head from then w else fill_window ctx item from (head - 1) head w

  unfoldable pub fill_lookback : Context → Bool → ℕ → List RegistryItem → World db → World db
  unfolding fill_lookback_of
  fill_lookback ctx enabled head [] w = w
  fill_lookback ctx enabled head (item ∷ rest) w =
      if not enabled
      then w
      else fill_lookback ctx enabled head rest
          (fill_lookback_of ctx item head item.backfilling_lookback w)

  -- A head at `current` whose last processed block is `last`.
  unfoldable pub advance :
      Context
      → Bool
      → List RegistryItem
      → Scheduler
      → BlockSource
      → ℕ
      → Option ℕ
      → World db
      → Scheduler × World db
  unfolding fill_lookback process_block
  advance ctx enabled items st source current none w = (st, w)
  advance ctx enabled items st source current (some last) w =
      if leb current last then (st, w) else (
        record st { last_processed_blocks = put_head st.last_processed_blocks source current },
        fill_lookback ctx enabled current items (process_block db ctx current items w),
      )

  -- `_poll_block_source`: `current` is the read of the head.
  unfoldable pub poll_block_source :
      Context
      → Bool
      → List RegistryItem
      → BlockSource
      → Option ℕ
      → Option ℕ
      → Scheduler × World db
      → Scheduler × World db
  unfolding ensure_starting_block advance
  poll_block_source ctx enabled items source resolved none (st, w) =
      ((ensure_starting_block st source resolved).0, w)
  poll_block_source ctx enabled items source resolved (some current) (st, w) =
      let (st', known) = ensure_starting_block st source resolved in
      let observed = record st' { observed_blocks = put_head st'.observed_blocks source current } in
      if known
      then advance ctx enabled items observed source current
          (head_of st'.last_processed_blocks source) w
      else (st', w)
