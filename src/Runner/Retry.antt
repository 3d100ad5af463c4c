-- ===== src/Runner/Retry.antt =====
-- services/task_runner.py and queue_executor.py: a failed try with tries left goes back into its queue.
use abstract_block_dumper.Prelude.{
  ℕ, ◌+◌, ◌≡◌, refl, sym, ap, ◌∙◌, subst, Bool, true, false, Option, some, List, ◌∷◌, [], ◌++◌,
  is_some, raises, arith,
}
use abstract_block_dumper.Queue.{Queue}
use abstract_block_dumper.Attempt.{TaskAttempt}
use abstract_block_dumper.Attempt.Database.{Database, holds, map_row, set_if}
use abstract_block_dumper.Attempt.Transitions.{
  held_where, failure_set, too_late, retry_where, requeue_set, finish_failure, requeue_for_retry,
  transition,
}
use abstract_block_dumper.Attempt.Results.{transition_result, get-transition}
use abstract_block_dumper.Dispatch.{
  Message, Context, World, send_retry, send_retry_to, dispatch_retry, redispatch_queue,
}
use abstract_block_dumper.Registry.Items.{RegistryItem, get_by_executable_path}
use abstract_block_dumper.Retry.Rules.{retry_in, retry_delay}
use abstract_block_dumper.Runner.{
  Delivery, retry_item, retry_or_report_given_up, fail_with, record_failure, finish_run,
}

-- The message of a retry of the row, not before `eta`.
pub record IsRetryOf (r : TaskAttempt) (item : RegistryItem) (eta : ℕ) (m : Message) : Type 0 where
  pub same_task : m.task ≡ item.executable_path
  pub same_block : m.block_number ≡ r.block_number
  pub same_args : m.args ≡ r.args_json
  pub not_before : m.eta ≡ some eta

module _ (db : Database) where
  open db use {Table, get}

  -- A transition of a row that satisfies its WHERE clause.
  transition_won :
      (t : Table) (id : ℕ) (p : TaskAttempt → Bool) (set : TaskAttempt → TaskAttempt)
      (r : TaskAttempt)
      → get t id ≡ some r
      → p r ≡ true
      → ((transition db t id p set).1 ≡ true) × (get (transition db t id p set).0 id ≡ some (set r))
  transition_won t id p set r g h = (
    transition_result db t id p set ∙ ap (holds p) g ∙ h,
    get-transition db t id p set ∙ ap (map_row (set_if p set)) g ∙ rw h refl,
  )

  -- What a retry that was sent leaves.
  abbrev pub IsQueuedAgain :
      TaskAttempt → RegistryItem → Queue → ℕ → Context → ℕ → World db → World db → Type 0
  IsQueuedAgain r item q eta ctx id w w' =
      (get w'.0 id ≡ some (requeue_set ctx.now q.name r))
      × (m : Message) × (w'.1 ≡ w.1 ++ m ∷ [])
      × IsRetryOf r item eta m

  send_retry_accepted :
      (ctx : Context) (w : World db) (id : ℕ) (item : RegistryItem) (r : TaskAttempt)
      (use_archive : Bool) (eta : ℕ) (q : Queue)
      → get w.0 id ≡ some r
      → retry_where r ≡ true
      → ((m : Message) → ctx.accepts m ≡ true)
      → IsQueuedAgain r item q eta ctx id w (send_retry db ctx w id item r use_archive eta q).0
  unfolding send_retry requeue_for_retry
  send_retry_accepted ctx w id item r use_archive eta q g h a =
      let won = transition_won w.0 id retry_where (requeue_set ctx.now q.name) r g h in
      rw won.0 (
        rw (a _) (
          won.1,
          _,
          refl,
          record { same_task = refl; same_block = refl; same_args = refl; not_before = refl },
        ))

  dispatch_retry_accepted :
      (ctx : Context) (w : World db) (id : ℕ) (item : RegistryItem) (r : TaskAttempt)
      (use_archive : Bool) (eta : ℕ) (q : Queue)
      → get w.0 id ≡ some r
      → retry_where r ≡ true
      → r.next_retry_at ≡ some eta
      → redispatch_queue ctx.rules.registry item r ≡ some q
      → ((m : Message) → ctx.accepts m ≡ true)
      → IsQueuedAgain r item q eta ctx id w (dispatch_retry db ctx w id item r use_archive).0
  unfolding dispatch_retry send_retry_to
  dispatch_retry_accepted ctx w id item r use_archive eta q g h e f a =
      subst
        (λ o.
          IsQueuedAgain r item q eta ctx id w
            (send_retry_to db ctx w id item r use_archive o
              (redispatch_queue ctx.rules.registry item r)).0)
        (sym e)
        (subst
          (λ o.
            IsQueuedAgain r item q eta ctx id w
              (send_retry_to db ctx w id item r use_archive (some eta) o).0)
          (sym f) (send_retry_accepted ctx w id item r use_archive eta q g h a))

  retry_or_report_accepted :
      (ctx : Context) (functions : List RegistryItem) (w : World db) (id : ℕ) (item : RegistryItem)
      (r : TaskAttempt) (use_archive : Bool) (eta : ℕ) (q : Queue) (o : Option TaskAttempt)
      → o ≡ some r
      → get w.0 id ≡ some r
      → retry_where r ≡ true
      → r.next_retry_at ≡ some eta
      → get_by_executable_path functions r.executable_path ≡ some item
      → redispatch_queue ctx.rules.registry item r ≡ some q
      → ((m : Message) → ctx.accepts m ≡ true)
      → IsQueuedAgain r item q eta ctx id w
          (retry_or_report_given_up db ctx functions w id use_archive o).0
  unfolding retry_or_report_given_up retry_item
  retry_or_report_accepted ctx functions w id item r use_archive eta q o s g h e p f a =
      let not_given_up : is_some r.give_up_reason ≡ false = ground arith in
      rw s (
        rw not_given_up
          (rw p (dispatch_retry_accepted ctx w id item r use_archive eta q g h e f a)))

  -- The rows of a failed try that is to be retried.
  failed_row_retries :
      (ctx : Context) (r : TaskAttempt) (delay : ℕ)
      → too_late ctx.now delay r ≡ false
      → (retry_where (failure_set ctx.now (some delay) r) ≡ true)
        × ((failure_set ctx.now (some delay) r).next_retry_at ≡ some (ctx.now.local + delay))
  failed_row_retries ctx r delay h = (rw h refl, rw h refl)

  fail_with_retries :
      (ctx : Context) (functions : List RegistryItem) (w : World db) (id : ℕ) (d : Delivery)
      (delay : ℕ) (r : TaskAttempt) (item : RegistryItem) (q : Queue)
      → get w.0 id ≡ some r
      → held_where d.claim_token r ≡ true
      → too_late ctx.now delay r ≡ false
      → get_by_executable_path functions r.executable_path ≡ some item
      → redispatch_queue ctx.rules.registry item (failure_set ctx.now (some delay) r) ≡ some q
      → ((m : Message) → ctx.accepts m ≡ true)
      → IsQueuedAgain
          (failure_set ctx.now (some delay) r)
          item
          q
          (ctx.now.local + delay)
          ctx
          id
          w
          (fail_with db ctx functions w id d (some delay)).0
  unfolding fail_with finish_failure
  fail_with_retries ctx functions w id d delay r item q g h l p f a =
      let won =
        transition_won w.0 id (held_where d.claim_token) (failure_set ctx.now (some delay)) r g h in
      let retries = failed_row_retries ctx r delay l in
      rw won.0 (
        retry_or_report_accepted ctx functions (_, w.1) id item (failure_set ctx.now (some delay) r)
          d.use_archive (ctx.now.local + delay) q _ won.1 won.1 retries.0 retries.1 p f a)

  -- A try that raises while its worker holds the attempt, and for which the retry rules leave a delay
  -- that ends before the give-up deadline, is not lost: where the task and its queue are registered and
  -- Celery takes messages, the row is PENDING again under that queue with its retry time, and exactly
  -- one message went out, for this task, block and arguments, not before that time.
  pub finish_run_retries :
      (ctx : Context) (functions : List RegistryItem) (w : World db) (id : ℕ) (loaded : TaskAttempt)
      (d : Delivery) (commits : Bool) (delay : ℕ) (r : TaskAttempt) (item : RegistryItem)
      (q : Queue)
      → retry_delay ctx.rules loaded ≡ retry_in delay
      → get w.0 id ≡ some r
      → held_where d.claim_token r ≡ true
      → too_late ctx.now delay r ≡ false
      → get_by_executable_path functions r.executable_path ≡ some item
      → redispatch_queue ctx.rules.registry item (failure_set ctx.now (some delay) r) ≡ some q
      → ((m : Message) → ctx.accepts m ≡ true)
      → IsQueuedAgain
          (failure_set ctx.now (some delay) r)
          item
          q
          (ctx.now.local + delay)
          ctx
          id
          w
          (finish_run db ctx functions w id loaded d commits raises).0
  unfolding finish_run record_failure
  finish_run_retries ctx functions w id loaded d true delay r item q e g h l p f a =
      rw e (fail_with_retries ctx functions w id d delay r item q g h l p f a)
  finish_run_retries ctx functions w id loaded d false delay r item q e g h l p f a =
      rw e (fail_with_retries ctx functions w id d delay r item q g h l p f a)
