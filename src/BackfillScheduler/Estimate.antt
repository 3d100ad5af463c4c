-- ===== src/BackfillScheduler/Estimate.antt =====
-- _internal/services/backfill_scheduler.py: a backfill sends no more than the dry run has estimated.
use abstract_block_dumper.Prelude.{
  ℕ, suc, ◌+◌, ◌≤◌, ◌≡◌, refl, String, Bool, true, false, not, ◌&&◌, Option, none, some, List, ◌∷◌,
  [], length, Bool-cases, inl, inr, arith, ap, subst, sym,
}
use abstract_block_dumper.Numeric.{Value}
use abstract_block_dumper.Attempt.Database.{Database}
use abstract_block_dumper.Backfill.{block_range, backfill_target}
use abstract_block_dumper.Backfill.Queued.{settle}
use abstract_block_dumper.BackfillScheduler.{
  Started, unavailable, previewed, ran, begin, start_at, start, stopped, interrupted, pending, send,
  send_admitted, send_matching, submit_queued, submit_by, submit_one, submit_each, process_block,
  run_blocks, run_backfill,
}
use abstract_block_dumper.BackfillScheduler.DryRun.{
  Cache, is_due, matches, DryRunStats, prefetch_executed_blocks, run_dry_run,
}
use abstract_block_dumper.BackfillScheduler.DryRun.Counts.{one_for, due_args, due_tasks, sum_over}
use abstract_block_dumper.BackfillScheduler.DryRun.Laws.{run_dry_run-IsPreview}
use abstract_block_dumper.BackfillScheduler.Head.{latest_dumper_head}
use abstract_block_dumper.BackfillScheduler.Moments.{
  Progress, Moment, arrive, resume, with_state, with_world,
}
use abstract_block_dumper.Dispatch.{Context, Sending, sent, not_sent, raised, is_sent, World}
use abstract_block_dumper.Dispatch.Counts.{one_if, execute-Counts}
use abstract_block_dumper.Registry.Items.{RegistryItem, match_condition, get_execution_args}
use abstract_block_dumper.Queue.{Queue}
use abstract_block_dumper.Settings.{Settings, Read, valid, value_error}
use abstract_block_dumper.Throttle.{Gate, Look, Admission, admitted, refused, waiting, admit}
use abstract_block_dumper.BackfillScheduler.Sends.{
  messages, one_if-le, if-le, ending-le, resume-messages, window-le,
}

module _ (db : Database) (s : Settings) (poll_seconds : Value) (chain : ℕ → Option ℕ) where
  open db use {Table}

  settle-messages :
      (item : RegistryItem) (g : Gate Table) (x : World db × Sending)
      → (settle db s poll_seconds item g x).0.0.1 ≡ x.0.1
  unfolding settle
  settle-messages item g (w, sent) = refl
  settle-messages item g (w, not_sent) = refl
  settle-messages item g (w, raised) = refl

  with_state-messages :
      (p : Progress Table) (x : World db × Gate Table) → messages (with_state p x) ≡ length x.0.1
  unfolding with_state
  with_state-messages p (w, g) = refl

  settled-le :
      (p : Progress Table) (w : World db) (item : RegistryItem) (g : Gate Table)
      (x : World db × Sending)
      → length x.0.1 ≡ one_if (is_sent x.1) (length w.1)
      → messages (with_state p (settle db s poll_seconds item g x).0) ≤ suc (length w.1)
  settled-le p w item g x e = omega (
    arith,
    with_state-messages p (settle db s poll_seconds item g x).0,
    ap length (settle-messages item g x),
    one_if-le (is_sent x.1) (length w.1),
  )

  send-le :
      (ctx : Context) (item : RegistryItem) (block : ℕ) (args : String) (p : Progress Table)
      → messages (send db s poll_seconds chain ctx item block args p) ≤ suc (messages p)
  unfolding send
  send-le ctx item block args p =
      settled-le
        (record p { head = (latest_dumper_head p.head p.now.local (chain p.now.local) block).0 })
        p.world item p.gate _ (execute-Counts db _ p.world item block args _ _ _)

  send_admitted-le :
      (ctx : Context) (item : RegistryItem) (block : ℕ) (args : String) (p : Progress Table)
      (a : Read (Gate Table × Admission))
      → messages (send_admitted db s poll_seconds chain ctx item block args p a) ≤ suc (messages p)
  unfolding send_admitted
  send_admitted-le ctx item block args p value_error = omega arith
  send_admitted-le ctx item block args p (valid (g, waiting)) = omega (arith, resume-messages p g)
  send_admitted-le ctx item block args p (valid (g, refused)) = omega (arith, resume-messages p g)
  send_admitted-le ctx item block args p (valid (g, admitted)) =
      omega (arith, send-le ctx item block args (resume p g), resume-messages p g)

  send_matching-le :
      (ctx : Context) (item : RegistryItem) (block : ℕ) (args : String) (p : Progress Table)
      (answer : Option Bool)
      → messages (send_matching db s poll_seconds chain ctx item block args p answer)
        ≤ messages p + one_for (matches answer)
  unfolding send_matching
  send_matching-le ctx item block args p none = omega arith
  send_matching-le ctx item block args p (some false) = omega arith
  send_matching-le ctx item block args p (some true) = omega (
    arith,
    send_admitted-le ctx item block args p
        (admit db s poll_seconds p.now p.world.0 p.gate (backfill_target item)),
  )

  queued-le :
      (ctx : Context) (executed : ℕ → Bool) (item : RegistryItem) (block : ℕ) (args : String)
      (p : Progress Table)
      → messages (submit_queued db s poll_seconds chain ctx executed item block args p)
        ≤ messages p + one_for (not (executed block) && matches (match_condition item block args))
  unfolding submit_queued
  queued-le ctx executed item block args p = elim (Bool-cases (executed block)) [
    | inl y ↦ rw y (omega arith)
    | inr n ↦ rw n (send_matching-le ctx item block args p (match_condition item block args))
  ]

  submit_by-le :
      (ctx : Context) (cache : Cache) (head : Option ℕ) (item : RegistryItem) (block : ℕ)
      (args : String) (live : Option Queue) (p : Progress Table)
      → messages (submit_by db s poll_seconds chain ctx cache head item block args live p)
        ≤ messages p + one_for (is_due cache item args block)
  unfolding submit_by with_world is_due
  submit_by-le ctx cache head item block args (some q) p =
      queued-le ctx (cache item.executable_path args) item block args p
  submit_by-le ctx cache head item block args none p =
      window-le db _ _ (cache item.executable_path args) _ item block args p.world

  submit_one-le :
      (ctx : Context) (cache : Cache) (head : Option ℕ) (item : RegistryItem) (block : ℕ)
      (args : String) (p : Progress Table)
      → messages (submit_one db s poll_seconds chain ctx cache head item block args p)
        ≤ messages p + one_for (is_due cache item args block)
  unfolding submit_one
  submit_one-le ctx cache head item block args p =
      if-le p.blocked p _ (messages p + one_for (is_due cache item args block)) (omega arith)
        (submit_by-le ctx cache head item block args item.live_queue p)

  submit_each-le :
      (ctx : Context) (cache : Cache) (head : Option ℕ) (item : RegistryItem) (block : ℕ)
      (arg_sets : List String) (p : Progress Table)
      → messages (submit_each db s poll_seconds chain ctx cache head item block arg_sets p)
        ≤ messages p + due_args cache item block arg_sets
  unfolding submit_each
  submit_each-le ctx cache head item block [] p = omega arith
  submit_each-le ctx cache head item block (args ∷ rest) p = omega (
    arith,
    submit_each-le ctx cache head item block rest
        (submit_one db s poll_seconds chain ctx cache head item block args p),
    submit_one-le ctx cache head item block args p,
  )

  process_block-le :
      (ctx : Context) (cache : Cache) (head : Option ℕ) (block : ℕ) (items : List RegistryItem)
      (p : Progress Table)
      → messages (process_block db s poll_seconds chain ctx cache head block items p)
        ≤ messages p + due_tasks cache items block
  unfolding process_block
  process_block-le ctx cache head block [] p = omega arith
  process_block-le ctx cache head block (item ∷ rest) p = omega (
    arith,
    process_block-le ctx cache head block rest
        (submit_each db s poll_seconds chain ctx cache head item block (get_execution_args item) p),
    submit_each-le ctx cache head item block (get_execution_args item) p,
  )

  run_blocks-le :
      (ctx : Context) (cache : Cache) (head : Option ℕ) (items : List RegistryItem)
      (moments : ℕ → Moment Table) (blocks : List ℕ) (n : ℕ) (p : Progress Table)
      → messages (run_blocks db s poll_seconds chain ctx cache head items moments blocks n p).0
        ≤ messages p + sum_over (due_tasks cache items) blocks
  unfolding run_blocks arrive
  run_blocks-le ctx cache head items moments [] n p = omega arith
  run_blocks-le ctx cache head items moments (block ∷ rest) n p =
      let start = arrive p (moments block) in
      let p' = process_block db s poll_seconds chain ctx cache head block items start in
      let one : messages p' ≤ messages p + due_tasks cache items block =
        process_block-le ctx cache head block items start in
      let others = run_blocks-le ctx cache head items moments rest (suc n) p' in
      ending-le (not (moments block).is_running) p'.blocked (moments block).interrupted
        (p, n, stopped) (p', n, pending) (p', suc n, interrupted)
        (run_blocks db s poll_seconds chain ctx cache head items moments rest (suc n) p')
        (messages p + sum_over (due_tasks cache items) (block ∷ rest)) (omega arith)
        (omega (arith, one)) (omega (arith, one)) (omega (arith, one, others))

  run_backfill-le :
      (ctx : Context) (head : Option ℕ) (items : List RegistryItem) (moments : ℕ → Moment Table)
      (from_block to_block : ℕ) (p : Progress Table)
      → messages
          (run_backfill db s poll_seconds chain ctx head items moments from_block to_block p).0
        ≤ messages p + (run_dry_run db p.world.0 items from_block to_block).estimated_tasks
  unfolding run_backfill
  run_backfill-le ctx head items moments from_block to_block p = omega (
    arith,
    (run_dry_run-IsPreview db p.world.0 items from_block to_block).tasks,
    run_blocks-le ctx (prefetch_executed_blocks db p.world.0 from_block to_block items) head items
        moments (block_range from_block to_block) 0 p,
  )

  -- The backfill sent no more messages than `stats` estimates.
  abbrev pub SendsWithin : DryRunStats → World db → Started Table → Type 0
  SendsWithin stats w unavailable = Unit
  SendsWithin stats w (previewed other) = other ≡ stats
  SendsWithin stats w (ran (p, n, e)) = messages p ≤ length w.1 + stats.estimated_tasks

  start_at-SendsWithin :
      (ctx : Context) (dry_run : Bool) (items : List RegistryItem) (moments : ℕ → Moment Table)
      (looks : List (Look Table)) (from_block to_block : ℕ) (w : World db) (head : Option ℕ)
      → SendsWithin (run_dry_run db w.0 items from_block to_block) w (
          start_at db s poll_seconds chain ctx dry_run items moments looks from_block to_block w
            head)
  unfolding start_at begin
  start_at-SendsWithin ctx dry_run items moments looks from_block to_block w none = tt
  start_at-SendsWithin ctx true items moments looks from_block to_block w (some head) = refl
  start_at-SendsWithin ctx false items moments looks from_block to_block w (some head) =
      run_backfill-le ctx (some head) items moments from_block to_block _

  -- Whatever other processes, the chain and the queues do, a backfill sends at most as many messages
  -- as a dry run of the same range estimates on the table that the backfill starts with.
  pub start_estimate :
      (ctx : Context) (items : List RegistryItem) (moments : ℕ → Moment Table)
      (looks : List (Look Table)) (from_block to_block : ℕ) (w : World db) {stats : DryRunStats}
      → start db s poll_seconds chain ctx true items moments looks from_block to_block w
        ≡ previewed stats
      → SendsWithin stats w
          (start db s poll_seconds chain ctx false items moments looks from_block to_block w)
  unfolding start
  start_estimate ctx items moments looks from_block to_block w {stats} e =
      let same : stats ≡ run_dry_run db w.0 items from_block to_block =
        subst (SendsWithin (run_dry_run db w.0 items from_block to_block) w) e (
          start_at-SendsWithin ctx true items moments looks from_block to_block w
            (chain ctx.now.local)) in
      subst
        (λ stats.
          SendsWithin stats w
            (start db s poll_seconds chain ctx false items moments looks from_block to_block w))
        (sym same)
        (start_at-SendsWithin ctx false items moments looks from_block to_block w
          (chain ctx.now.local))
