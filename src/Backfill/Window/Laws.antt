-- ===== src/Backfill/Window/Laws.antt =====
-- _internal/services/window_backfiller.py: what the number of submissions counts.
use abstract_block_dumper.Prelude.{
  ℕ, ◌≡◌, refl, String, Bool, true, false, Option, some, returned, ◌||◌, Bool-cases, inl, inr,
}
use abstract_block_dumper.Attempt.{TaskAttempt, is_pending, is_success, is_running}
use abstract_block_dumper.Attempt.Database.{Database}
use abstract_block_dumper.Attempt.Reopen.{get_or_create}
use abstract_block_dumper.Attempt.Transitions.{Now}
use abstract_block_dumper.Backfill.Window.{submit_block, submit_matching, count_submitted}
use abstract_block_dumper.BlockTask.{task_create_or_get_pending, may_run_again}
use abstract_block_dumper.BlockTask.Executor.{execute, submit_pending}
use abstract_block_dumper.Dispatch.{Context, World, not_sent}
use abstract_block_dumper.Registry.Items.{RegistryItem, match_condition}

module _ (db : Database) where
  open db use {Table, get, find}

  get_or_create_found :
      (now : Now) (t : Table) (block : ℕ) (path args : String) (id : ℕ)
      → find t block path args ≡ some id
      → get_or_create db now t block path args ≡ (t, id, false)
  unfolding get_or_create
  get_or_create_found now t block path args id f = rw (get_or_create, f) refl

  -- An attempt that may not run again is left as it is.
  task_create_or_get_pending_kept :
      (now : Now) (t : Table) (limit block : ℕ) (path args : String) (id : ℕ) (r : TaskAttempt)
      → find t block path args ≡ some id
      → get t id ≡ some r
      → may_run_again db now limit r ≡ false
      → task_create_or_get_pending db now t limit block path args ≡ (t, id, false)
  unfolding task_create_or_get_pending
  task_create_or_get_pending_kept now t limit block path args id r f g m =
      rw (get_or_create_found now t block path args id f) (
        rw g (elim (Bool-cases (is_success r.status || is_running r.status)) [
          | inl y ↦ rw y refl
          | inr n ↦ rw n (rw m refl)
        ]))

  -- `CeleryExecutor.execute` sends nothing for such an attempt.
  execute_kept :
      (ctx : Context) (w : World db) (item : RegistryItem) (block : ℕ) (args : String)
      (use_archive : Bool) (queue : Option String) (id : ℕ) (r : TaskAttempt)
      → find w.0 block item.executable_path args ≡ some id
      → get w.0 id ≡ some r
      → is_pending r.status ≡ false
      → may_run_again db ctx.now ctx.rules.max_attempt_limit r ≡ false
      → execute db ctx w item block args use_archive queue ≡ (w, not_sent)
  unfolding execute submit_pending
  execute_kept ctx w item block args use_archive queue id r f g p m =
      rw
        (task_create_or_get_pending_kept ctx.now w.0 ctx.rules.max_attempt_limit block
          item.executable_path args id r f g m)
        (rw g (rw p refl))

  -- `submit_block` answers True for a block whose attempt may not run again, for example a FAILED one
  -- without tries left, when it is not among the blocks to skip: it counts as submitted although no
  -- message is sent and no row changes.
  pub submit_block_overcounts :
      (ctx : Context) (threshold : ℕ) (executed : ℕ → Bool) (head : ℕ) (item : RegistryItem)
      (block : ℕ) (args : String) (w : World db) (id : ℕ) (r : TaskAttempt)
      → executed block ≡ false
      → match_condition item block args ≡ some true
      → find w.0 block item.executable_path args ≡ some id
      → get w.0 id ≡ some r
      → is_pending r.status ≡ false
      → may_run_again db ctx.now ctx.rules.max_attempt_limit r ≡ false
      → submit_block db ctx threshold executed head item block args w ≡ (w, returned true)
  unfolding submit_block submit_matching count_submitted
  submit_block_overcounts ctx threshold executed head item block args w id r e c f g p m =
      rw e (rw c (rw (execute_kept ctx w item block args _ _ id r f g p m) refl))
