-- ===== src/BlockTask/Executor.antt =====
-- _internal/services/executor.py: `CeleryExecutor`, which sends the messages of `@block_task` tasks.
use abstract_block_dumper.Prelude.{
  ℕ, String, Bool, not, ◌&&◌, Option, none, some, Dict, insert, if◌then◌else◌,
}
use abstract_block_dumper.Numeric.{Value, text}
use abstract_block_dumper.Attempt.{TaskAttempt, is_pending}
use abstract_block_dumper.Attempt.Database.{Database}
use abstract_block_dumper.Registry.Items.{RegistryItem}
use abstract_block_dumper.Dispatch.{Context, Sending, not_sent, raised, own_options, World, post}
use abstract_block_dumper.BlockTask.{task_create_or_get_pending, task_record_dispatch}

abbrev pub put_queue : Option String → Dict Value → Dict Value
put_queue none options = options
put_queue (some name) options = insert "queue" (text name) options

module _ (db : Database) where
  open db use {get}

  unfoldable pub submit_pending :
      Context
      → World db
      → ℕ
      → Bool
      → RegistryItem
      → ℕ
      → String
      → Bool
      → Option String
      → Option TaskAttempt
      → World db × Sending
  unfolding task_record_dispatch own_options
  submit_pending ctx w id created item block args use_archive queue none = (w, raised)
  submit_pending ctx w id created item block args use_archive queue (some r) =
      if not created && not (is_pending r.status)
      then (w, not_sent)
      else post db ctx (task_record_dispatch db ctx.now w.0 id queue, w.1)
          (record {
            task = item.executable_path;
            block_number = block;
            args = args;
            use_archive = use_archive;
            eta = r.next_retry_at;
            options = put_queue queue (own_options item);
          })

  -- `CeleryExecutor.execute`; the answer says whether it sent a message, which the source does not tell.
  unfoldable pub execute :
      Context → World db → RegistryItem → ℕ → String → Bool → Option String → World db × Sending
  unfolding submit_pending
  execute ctx w item block args use_archive queue =
      let (t, id, created) =
        task_create_or_get_pending db ctx.now w.0 ctx.rules.max_attempt_limit block
          item.executable_path args in
      submit_pending ctx (t, w.1) id created item block args use_archive queue (get t id)
