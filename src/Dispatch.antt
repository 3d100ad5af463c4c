-- ===== src/Dispatch.antt =====
-- _internal/services/queue_executor.py: sending the messages of `BlockDumper` tasks.
--
-- The world is the table of attempts and the messages that Celery accepted, in order. Celery is a
-- parameter: `accepts` says whether `apply_async` returns or raises. An operation reads the clocks
-- once. Logging and metrics are left out.
pub mod Options
pub mod Laws
pub mod Counts
use abstract_block_dumper.Prelude.{
  ℕ, ◌+◌, ◌-◌, ◌*◌, ◌≡◌, String, Bool, true, false, not, ◌&&◌, ◌||◌, Option, none, some, List, ◌∷◌,
  [], ◌++◌, Dict, insert, update, among, ltb, ◌==◌, str_eq, if◌then◌else◌, is_none, is_some, keep,
}
use abstract_block_dumper.Numeric.{Value, text, real, plus}
use abstract_block_dumper.Queue.{Queue, message_options, message_expiry}
use abstract_block_dumper.Attempt.{TaskAttempt, is_pending}
use abstract_block_dumper.Attempt.Database.{Database}
use abstract_block_dumper.Attempt.Transitions.{
  Now, record_dispatch, set_give_up_deadline, give_up_if_past_deadline, requeue_for_retry,
}
use abstract_block_dumper.Attempt.Reopen.{create_or_reopen}
use abstract_block_dumper.Registry.Dumper.{DumperRegistry, get_queue, or_queue}
use abstract_block_dumper.Registry.Items.{RegistryItem, Target, named, policy}
use abstract_block_dumper.Retry.Rules.{Rules}

-- services/archive_network.py
abbrev pub archive_block_threshold : ℕ
archive_block_threshold = 300

-- What `apply_async` is called with.
pub record Message : Type 0 where
  pub task : String
  pub block_number : ℕ
  pub args : String
  pub use_archive : Bool
  pub eta : Option ℕ
  pub options : Dict Value

pub record Context : Type 0 where
  pub rules : Rules
  pub accepts : Message → Bool
  pub now : Now

pub data Sending : Type 0 where
  sent not_sent raised : Sending

abbrev pub is_sent : Sending → Bool
is_sent sent = true
is_sent _ = false

-- The task's own options, without those that the library sets.
unfoldable pub own_options : RegistryItem → Dict Value
own_options item =
    keep (λ (e : String × Value). not (among e.0 ("kwargs" ∷ "eta" ∷ "args" ∷ [])))
      item.celery_kwargs

abbrev pub put_expiry : Option ℕ → Dict Value → Dict Value
put_expiry none options = options
put_expiry (some n) options = insert "expires" (real (plus n)) options

-- The options of a first submission or re-dispatch under the queue `q`.
unfoldable pub submission_options : ℕ → RegistryItem → Queue → Option ℕ → Dict Value
unfolding own_options
submission_options now item q eta =
    put_expiry (message_expiry q eta now)
      (update (insert "queue" (text q.name) (own_options item)) (message_options q))

abbrev pub target_queue : Option Target → Option Queue
target_queue none = none
target_queue (some (named name)) = none
target_queue (some (policy q)) = some q

-- `_aged_past_archive_threshold`: the quotient of age and block time is compared multiplied out.
unfoldable pub aged_past_archive_threshold : ℕ → RegistryItem → TaskAttempt → Bool
aged_past_archive_threshold now item r =
    ltb (archive_block_threshold * item.block_time) (now - r.created_at)

abbrev backfill_or_live : Option Target → Option Queue → Option Queue
backfill_or_live none live = live
backfill_or_live (some target) live = target_queue (some target)

-- The queue of a retry or re-dispatch; none where the item has no queue object, which raises.
unfoldable pub redispatch_queue : DumperRegistry → RegistryItem → TaskAttempt → Option Queue
redispatch_queue g item r =
    or_queue (get_queue g r.dispatch_queue) (backfill_or_live item.backfill_queue item.live_queue)

-- The policy of a submission: an existing attempt keeps the queue that it was sent under.
unfoldable pub submission_policy :
    DumperRegistry → RegistryItem → TaskAttempt → Bool → Option Queue → Option Queue
submission_policy g item r created queue =
    if created
    then or_queue queue item.live_queue
    else or_queue (get_queue g r.dispatch_queue) (or_queue queue item.live_queue)

module _ (db : Database) where
  open db use {Table, get}

  abbrev pub World : Type 0
  World = Table × List Message

  abbrev pub post : Context → World → Message → World × Sending
  post ctx w m = if ctx.accepts m then ((w.0, w.1 ++ m ∷ []), sent) else (w, raised)

  abbrev deadline : Now → Table → ℕ → ℕ → ℕ → Option ℕ → Option ℕ → Table
  deadline now t id block block_time (some blocks) (some head) =
      set_give_up_deadline db now t id ((blocks + block) * block_time) (head * block_time)
  deadline now t id block block_time _ _ = t

  -- `_gave_up`
  unfoldable pub gave_up :
      Now → Table → ℕ → RegistryItem → TaskAttempt → Queue → Option ℕ → Table × Bool
  gave_up now t id item r q head =
      give_up_if_past_deadline db now
        (deadline now t id r.block_number item.block_time q.retry.give_up_after_blocks head) id

  unfoldable pub send_under :
      Context
      → World
      → ℕ
      → RegistryItem
      → TaskAttempt
      → ℕ
      → String
      → Bool
      → Option ℕ
      → Queue
      → World × Sending
  unfolding gave_up
  send_under ctx w id item r block args use_archive head q =
      let (t, stopped) = gave_up ctx.now w.0 id item r q head in
      if stopped
      then ((t, w.1), not_sent)
      else post ctx (record_dispatch db ctx.now t id (some q.name) (some q.name), w.1)
          (record {
            task = item.executable_path;
            block_number = block;
            args = args;
            use_archive = use_archive;
            eta = r.next_retry_at;
            options = submission_options ctx.now.local item q r.next_retry_at;
          })

  -- The rest of `execute`, for the attempt that was created or found. The row is there; a missing
  -- one, or an item without any queue, would raise.
  unfoldable pub submit_loaded :
      Context
      → World
      → ℕ
      → Bool
      → RegistryItem
      → ℕ
      → String
      → Bool
      → Option Queue
      → Option ℕ
      → Option TaskAttempt
      → World × Sending
  unfolding send_under
  submit_loaded ctx w id created item block args use_archive queue head none = (w, raised)
  submit_loaded ctx w id created item block args use_archive queue head (some r) =
      if not created && not (is_pending r.status)
      then (w, not_sent)
      else elim (submission_policy ctx.rules.registry item r created queue) [
        | none ↦ (w, raised)
        | some q ↦ send_under ctx w id item r block args use_archive head q
      ]

  -- `QueueExecutor.execute`
  unfoldable pub execute :
      Context → World → RegistryItem → ℕ → String → Bool → Option Queue → Option ℕ → World × Sending
  unfolding submit_loaded
  execute ctx w item block args use_archive queue head =
      let (t, id, created) =
        create_or_reopen db ctx.now w.0 ctx.rules.max_attempt_limit block item.executable_path
          args in
      submit_loaded ctx (t, w.1) id created item block args use_archive queue head (get t id)

  unfoldable pub send_retry :
      Context → World → ℕ → RegistryItem → TaskAttempt → Bool → ℕ → Queue → World × Sending
  send_retry ctx w id item r use_archive eta q =
      let (t, requeued) = requeue_for_retry db ctx.now w.0 id q.name in
      if not requeued
      then ((t, w.1), not_sent)
      else post ctx (t, w.1)
          (record {
            task = item.executable_path;
            block_number = r.block_number;
            args = r.args_json;
            use_archive = use_archive || aged_past_archive_threshold ctx.now.local item r;
            eta = some eta;
            options = put_expiry (message_expiry q (some eta) ctx.now.local) (message_options q);
          })

  -- A retry at the row's retry time under the queue found for it, where both are there.
  unfoldable pub send_retry_to :
      Context
      → World
      → ℕ
      → RegistryItem
      → TaskAttempt
      → Bool
      → Option ℕ
      → Option Queue
      → World × Sending
  send_retry_to ctx w id item r use_archive none q = (w, not_sent)
  send_retry_to ctx w id item r use_archive (some eta) none = (w, raised)
  send_retry_to ctx w id item r use_archive (some eta) (some q) =
      send_retry ctx w id item r use_archive eta q

  -- `QueueExecutor.dispatch_retry`; `r` is the row as the caller loaded it.
  unfoldable pub dispatch_retry :
      Context → World → ℕ → RegistryItem → TaskAttempt → Bool → World × Sending
  unfolding send_retry_to send_retry
  dispatch_retry ctx w id item r use_archive =
      send_retry_to ctx w id item r use_archive r.next_retry_at
        (redispatch_queue ctx.rules.registry item r)
