-- ===== src/BackfillCommand.antt =====
-- management/commands/backfill_blocks_v1.py: the command, which runs one backfill for each gap.
--
-- Each backfill begins in a session: its clocks and table, and what its scheduler will see. What the
-- command prints is left out, but for the numbers of its summaries.
pub mod Laws
use abstract_block_dumper.Prelude.{
  ℕ, ◌+◌, Bool, true, false, not, ◌&&◌, ◌||◌, Option, none, some, List, ◌∷◌, [], leb, ltb, ◌==◌,
  or_else, if◌then◌else◌,
}
use abstract_block_dumper.Numeric.{Value, ℤ, is_non_negative, is_positive}
use abstract_block_dumper.Attempt.{TaskAttempt, is_success}
use abstract_block_dumper.Attempt.Database.{Database}
use abstract_block_dumper.Attempt.Transitions.{Now}
use abstract_block_dumper.BackfillScheduler.{
  Ending, completed, stopped, interrupted, pending, Started, unavailable, previewed, ran, start,
}
use abstract_block_dumper.BackfillScheduler.DryRun.{DryRunStats}
use abstract_block_dumper.BackfillScheduler.Moments.{Progress, Moment}
use abstract_block_dumper.Dispatch.{Context, World}
use abstract_block_dumper.Gaps.{Gap, size, total_missing, find_gaps}
use abstract_block_dumper.Registry.Items.{RegistryItem}
use abstract_block_dumper.Settings.{Settings}
use abstract_block_dumper.Throttle.{Look}

pub record Options : Type 0 where
  pub from_block : Option ℕ
  pub to_block : Option ℕ
  pub rate_limit : ℤ
  pub dry_run : Bool
  pub no_gap_detection : Bool

-- `interrupted`: Ctrl+C in the pause after the gap.
pub record Session (T : Type 0) : Type 0 where
  pub now : Now
  pub table : T
  pub moments : ℕ → Moment T
  pub looks : List (Look T)
  pub interrupted : Bool

-- How the loop over the gaps ended.
pub data GapsEnd : Type 0 where
  all_done interrupted_between head_unavailable gate_waits : GapsEnd

-- The range of the options, completed by that of the database.
abbrev pub range_of : Option ℕ → Option ℕ → Option ℕ → Option ℕ → Option (ℕ × ℕ)
range_of (some from_block) (some to_block) min_block max_block = some (from_block, to_block)
range_of none to_block (some min_block) (some max_block) =
    some (min_block, or_else to_block max_block)
range_of (some from_block) none (some min_block) (some max_block) = some (from_block, max_block)
range_of from_block to_block min_block max_block = none

-- `i < len(gaps) and rate_limit > 0`, with the gaps that are left.
abbrev pub pauses : ℤ → List Gap → Bool
pauses rate_limit [] = false
pauses rate_limit (g ∷ rest) = is_positive rate_limit

module _ (db : Database) where
  open db use {Table}

  -- `block in get_successful_block_numbers(from_block, to_block)`
  unfoldable pub get_successful_block_numbers : Table → ℕ → ℕ → ℕ → Bool
  get_successful_block_numbers t from_block to_block block = not (
      db.count t (λ r.
        leb from_block r.block_number
        && leb r.block_number to_block
        && is_success r.status
        && block == r.block_number)
      == 0)

  unfoldable pub get_block_range : Table → Option ℕ × Option ℕ
  get_block_range t = (
    db.lowest t (λ r. true) (λ r. r.block_number),
    db.highest t (λ r. true) (λ r. r.block_number),
  )

  -- The range that `handle` works on.
  unfoldable pub chosen_range : Table → Options → Option (ℕ × ℕ)
  unfolding get_block_range
  chosen_range t o = range_of o.from_block o.to_block (get_block_range t).0 (get_block_range t).1

  -- The gaps that `_handle_gap_backfill` finds.
  unfoldable pub gaps_of : Table → ℕ → ℕ → List Gap
  gaps_of t from_block to_block =
      find_gaps from_block to_block (get_successful_block_numbers t from_block to_block)

-- What the command comes to.
pub data Outcome (T M : Type 0) : Type 0 where
  no_functions setup_failed no_blocks range_reversed rate_negative no_gaps : Outcome T M
  gaps_previewed : ℕ → Option ℕ → Outcome T M
  gaps_run : M → ℕ → GapsEnd → Outcome T M
  range_run : Started T → Outcome T M

module _ (db : Database) (s : Settings) (poll_seconds : Value) (chain : ℕ → Option ℕ) where
  open db use {Table}

  -- `BackfillScheduler.start` in a session.
  unfoldable pub start_in :
      Context → Bool → List RegistryItem → Session Table → Gap → World db → Started Table
  unfolding start
  start_in ctx dry_run items session g w =
      start db s poll_seconds chain (record ctx { now = session.now }) dry_run items session.moments
        session.looks g.start g.end (session.table, w.1)

  abbrev pub estimate_of : Started Table → Option ℕ
  estimate_of (previewed stats) = some stats.estimated_tasks
  estimate_of _ = none

  abbrev pub add_estimate : Option ℕ → Option ℕ → Option ℕ
  add_estimate none estimated = none
  add_estimate (some a) none = none
  add_estimate (some a) (some b) = some (a + b)

  -- The estimate of `_handle_gap_dry_run`, none where a start raises.
  unfoldable pub handle_gap_dry_run :
      Context → List RegistryItem → (ℕ → Session Table) → List Gap → World db → Option ℕ
  unfolding start_in
  handle_gap_dry_run ctx items sessions [] w = some 0
  handle_gap_dry_run ctx items sessions (g ∷ rest) w =
      add_estimate (estimate_of (start_in ctx true items (sessions g.start) g w))
        (handle_gap_dry_run ctx items sessions rest w)

  -- The rest of the loop, after the backfill of the gap `g`; `n` is `blocks_processed`.
  unfoldable pub after_gap :
      Gap
      → Bool
      → ℕ
      → World db
      → (ℕ → World db → World db × ℕ × GapsEnd)
      → Started Table
      → World db × ℕ × GapsEnd
  unfolding size
  after_gap g stop n w others unavailable = (w, n, head_unavailable)
  after_gap g stop n w others (previewed stats) = others (n + size g) w
  after_gap g stop n w others (ran (p, m, pending)) = (p.world, n, gate_waits)
  after_gap g stop n w others (ran (p, m, completed)) =
      if stop then (p.world, n + size g, interrupted_between) else others (n + size g) p.world
  after_gap g stop n w others (ran (p, m, stopped)) =
      if stop then (p.world, n + size g, interrupted_between) else others (n + size g) p.world
  after_gap g stop n w others (ran (p, m, interrupted)) =
      if stop then (p.world, n + size g, interrupted_between) else others (n + size g) p.world

  -- `_handle_gap_execution`; only a pause between two gaps can be interrupted.
  unfoldable pub handle_gap_execution :
      Context
      → ℤ
      → List RegistryItem
      → (ℕ → Session Table)
      → List Gap
      → ℕ
      → World db
      → World db × ℕ × GapsEnd
  unfolding after_gap start_in
  handle_gap_execution ctx rate_limit items sessions [] n w = (w, n, all_done)
  handle_gap_execution ctx rate_limit items sessions (g ∷ rest) n w =
      after_gap g (pauses rate_limit rest && (sessions g.start).interrupted) n w
        (handle_gap_execution ctx rate_limit items sessions rest)
        (start_in ctx false items (sessions g.start) g w)

  unfoldable pub run_outcome : World db × ℕ × GapsEnd → Outcome Table (World db)
  run_outcome (w, n, e) = gaps_run w n e

  -- `_handle_gap_backfill`, with the gaps found.
  unfoldable pub handle_gap_backfill :
      Context
      → ℤ
      → Bool
      → List RegistryItem
      → (ℕ → Session Table)
      → List Gap
      → World db
      → Outcome Table (World db)
  unfolding handle_gap_dry_run handle_gap_execution run_outcome total_missing
  handle_gap_backfill ctx rate_limit dry_run items sessions [] w = no_gaps
  handle_gap_backfill ctx rate_limit dry_run items sessions (g ∷ rest) w =
      if dry_run
      then gaps_previewed (total_missing (g ∷ rest))
          (handle_gap_dry_run ctx items sessions (g ∷ rest) w)
      else run_outcome (handle_gap_execution ctx rate_limit items sessions (g ∷ rest) 0 w)

  -- The range is known.
  unfoldable pub handle_range :
      Context
      → Options
      → List RegistryItem
      → (ℕ → Session Table)
      → World db
      → Option (ℕ × ℕ)
      → Outcome Table (World db)
  unfolding handle_gap_backfill gaps_of
  handle_range ctx o items sessions w none = no_blocks
  handle_range ctx o items sessions w (some (from_block, to_block)) =
      if ltb to_block from_block
      then range_reversed
      else if not (is_non_negative o.rate_limit)
      then rate_negative
      else if o.no_gap_detection
      then range_run (
          start_in ctx o.dry_run items (sessions from_block)
            (record { start = from_block; end = to_block }) w)
      else handle_gap_backfill ctx o.rate_limit o.dry_run items sessions
          (gaps_of db w.0 from_block to_block) w

  -- `handle`; `prepared`: `prepare_block_dumpers` did not raise.
  unfoldable pub handle :
      Context
      → Options
      → Bool
      → List RegistryItem
      → (ℕ → Session Table)
      → World db
      → Outcome Table (World db)
  unfolding handle_range chosen_range
  handle ctx o prepared [] sessions w = no_functions
  handle ctx o false (item ∷ rest) sessions w = setup_failed
  handle ctx o true (item ∷ rest) sessions w =
      handle_range ctx o (item ∷ rest) sessions w (chosen_range db w.0 o)
