-- ===== src/Reconciler.antt =====
-- _internal/services/reconciler.py: recovery of the attempts of `BlockDumper` tasks.
--
-- A sweep reads the clocks once. The exceptions of one attempt's recovery are logged: it does not
-- count, and the sweep goes on with what it had written. A row lock makes the re-check of a stuck
-- attempt and its reset one step; a row that another process has locked is passed over, `row_locked`.
pub mod Laws
pub mod Bound
use abstract_block_dumper.Prelude.{
  ℕ, zero, suc, ◌+◌, ◌-◌, String, Bool, true, false, not, ◌&&◌, Option, none, some, List, ◌∷◌, [],
  Dict, length, map, keep, ltb, ◌==◌, if◌then◌else◌, is_some,
}
use abstract_block_dumper.Queue.{Queue}
use abstract_block_dumper.Attempt.{TaskAttempt}
use abstract_block_dumper.Attempt.Database.{Database}
use abstract_block_dumper.Attempt.Transitions.{
  fail_expired_lease, expired_lease_ids, claim_expired_message, transition,
}
use abstract_block_dumper.Attempt.Reads.{expired_message_ids, stuck_attempt_ids, is_stuck}
use abstract_block_dumper.Attempt.Events.{reset_set}
use abstract_block_dumper.Dispatch.{
  Context, Sending, sent, is_sent, World, execute, dispatch_retry, redispatch_queue,
  archive_block_threshold,
}
use abstract_block_dumper.Registry.Items.{RegistryItem, get_by_executable_path}
use abstract_block_dumper.Retry.Rules.{RetryDelay, no_retry, retry_in, failure, retry_delay}
use abstract_block_dumper.Settings.{
  Settings, Read, valid, value_error, ◌>>=◌, recovery_margin_seconds,
}

-- `_needs_archive`
unfoldable pub needs_archive : TaskAttempt → Option ℕ → Bool
needs_archive r none = false
needs_archive r (some head) = ltb archive_block_threshold (head - r.block_number)

-- The paths of the registered tasks of `BlockDumper`s.
unfoldable pub dumper_paths : List RegistryItem → List String
dumper_paths functions =
    map (λ (item : RegistryItem). item.executable_path)
      (keep (λ (item : RegistryItem). is_some item.live_queue) functions)

-- The TTL of each queue that has one, with the recovery margin.
unfoldable pub ttl_windows : Settings → Dict Queue → Read (Dict ℕ)
ttl_windows s [] = valid []
ttl_windows s ((key, q) ∷ rest) = elim q.message_ttl [
  | none ↦ ttl_windows s rest
  | some ttl ↦ (do
    margin ← recovery_margin_seconds s
    others ← ttl_windows s rest
    valid ((q.name, ttl + margin) ∷ others))
]

abbrev pub names : Dict ℕ → List String
names [] = []
names ((name, window) ∷ rest) = name ∷ names rest

abbrev pub count_if : Bool → ℕ → ℕ
count_if true n = suc n
count_if false n = n

abbrev pub no_paths : List String → Bool
no_paths [] = true
no_paths (path ∷ paths) = false

-- One attempt after the other: the world, and how many were recovered.
unfoldable pub recover_each : {W : Type 0} → (W → ℕ → W × Bool) → List ℕ → W → W × ℕ
recover_each recover [] w = (w, 0)
recover_each recover (id ∷ ids) w =
    let (w', recovered) = recover w id in
    let (w'', n) = recover_each recover ids w' in (w'', count_if recovered n)

module _ (db : Database) where
  open db use {Table, get}

  abbrev counted : World db × Sending → World db × Bool
  counted (w, s) = (w, is_sent s)

  unfoldable pub retry_failed :
      Context → World db → ℕ → Option ℕ → TaskAttempt → Option RegistryItem → World db × Bool
  retry_failed ctx w id head r none = (w, false)
  retry_failed ctx w id head r (some item) =
      if is_some r.give_up_reason
      then (w, false)
      else counted (dispatch_retry db ctx w id item r (needs_archive r head))

  abbrev pub retry_refreshed :
      Context → List RegistryItem → World db → ℕ → Option ℕ → Option TaskAttempt → World db × Bool
  retry_refreshed ctx functions w id head none = (w, false)
  retry_refreshed ctx functions w id head (some r) =
      retry_failed ctx w id head r (get_by_executable_path functions r.executable_path)

  unfoldable pub fail_lease :
      Context → List RegistryItem → World db → ℕ → Option ℕ → Option ℕ → World db × Bool
  unfolding retry_failed
  fail_lease ctx functions w id head delay =
      let (t, expired) = fail_expired_lease db ctx.now w.0 id delay in
      if expired then retry_refreshed ctx functions (t, w.1) id head (get t id) else (w, false)

  unfoldable pub recover_lease_under :
      Context → List RegistryItem → World db → ℕ → Option ℕ → RetryDelay → World db × Bool
  unfolding fail_lease
  recover_lease_under ctx functions w id head no_retry = fail_lease ctx functions w id head none
  recover_lease_under ctx functions w id head (retry_in d) =
      fail_lease ctx functions w id head (some d)
  recover_lease_under ctx functions w id head failure = (w, false)

  -- `_recover_expired_lease`
  unfoldable pub recover_expired_lease :
      Context → List RegistryItem → Option ℕ → World db → ℕ → World db × Bool
  unfolding recover_lease_under
  recover_expired_lease ctx functions head w id = elim (get w.0 id) [
    | none ↦ (w, false)
    | some r ↦ recover_lease_under ctx functions w id head (retry_delay ctx.rules r)
  ]

  -- The message of an attempt is sent again; an item without a queue would raise.
  unfoldable pub send_again :
      Context → World db → Option ℕ → RegistryItem → TaskAttempt → Option Queue → World db × Bool
  send_again ctx w head item r none = (w, false)
  send_again ctx w head item r (some q) =
      counted
        (execute db ctx w item r.block_number r.args_json (needs_archive r head) (some q) head)

  unfoldable pub recover_message_of :
      Context
      → World db
      → ℕ
      → Dict ℕ
      → Option ℕ
      → TaskAttempt
      → Option RegistryItem
      → World db × Bool
  unfolding send_again
  recover_message_of ctx w id windows head r none = (w, false)
  recover_message_of ctx w id windows head r (some item) =
      let (t, expired) = claim_expired_message db ctx.now w.0 id windows in
      if expired
      then send_again ctx (t, w.1) head item r (redispatch_queue ctx.rules.registry item r)
      else (w, false)

  -- `_recover_expired_message`
  unfoldable pub recover_expired_message :
      Context → List RegistryItem → Dict ℕ → Option ℕ → World db → ℕ → World db × Bool
  unfolding recover_message_of
  recover_expired_message ctx functions windows head w id = elim (get w.0 id) [
    | none ↦ (w, false)
    | some r ↦
        recover_message_of ctx w id windows head r
          (get_by_executable_path functions r.executable_path)
  ]

  unfoldable pub recover_stuck_of :
      Context
      → World db
      → ℕ
      → ℕ
      → Dict ℕ
      → Option ℕ
      → TaskAttempt
      → Option RegistryItem
      → World db × Bool
  unfolding send_again
  recover_stuck_of ctx w id stale_before windows head r none = (w, false)
  recover_stuck_of ctx w id stale_before windows head r (some item) =
      let (t, stuck) =
        transition db w.0 id (is_stuck ctx.rules.max_attempt_limit stale_before (names windows))
          (reset_set ctx.now) in
      if stuck
      then send_again ctx (t, w.1) head item r (redispatch_queue ctx.rules.registry item r)
      else (w, false)

  -- `_recover_stuck_task`
  unfoldable pub recover_stuck_task :
      Context
      → List RegistryItem
      → (ℕ → Bool)
      → ℕ
      → Dict ℕ
      → Option ℕ
      → World db
      → ℕ
      → World db × Bool
  unfolding recover_stuck_of
  recover_stuck_task ctx functions row_locked stale_before windows head w id =
      if row_locked id then (w, false) else elim (get w.0 id) [
        | none ↦ (w, false)
        | some r ↦
            recover_stuck_of ctx w id stale_before windows head r
              (get_by_executable_path functions r.executable_path)
      ]

  -- What is left of the limit.
  unfoldable pub recover_stuck_tasks :
      Context
      → List RegistryItem
      → (ℕ → Bool)
      → Option ℕ
      → ℕ
      → Dict ℕ
      → Option ℕ
      → World db
      → World db × ℕ
  unfolding recover_each
  recover_stuck_tasks ctx functions row_locked none limit windows head w = (w, 0)
  recover_stuck_tasks ctx functions row_locked (some stale_after) limit windows head w =
      let stale_before = ctx.now.local - stale_after in
      recover_each (recover_stuck_task ctx functions row_locked stale_before windows head)
        (stuck_attempt_ids db w.0 ctx.rules.max_attempt_limit stale_before limit
          (dumper_paths functions) (names windows))
        w

  -- The sweep after the expired leases, of which `done` were handled and `n` recovered.
  unfoldable pub recover_messages :
      Context
      → List RegistryItem
      → (ℕ → Bool)
      → Option ℕ
      → ℕ
      → Option ℕ
      → World db
      → ℕ
      → Read (Dict ℕ)
      → World db × Read ℕ
  unfolding recover_each recover_stuck_tasks
  recover_messages ctx functions row_locked stale_after limit head w n value_error =
      (w, value_error)
  recover_messages ctx functions row_locked stale_after limit head w n (valid windows) =
      let ids = expired_message_ids db ctx.now w.0 windows limit (dumper_paths functions) in
      let (w', m) = recover_each (recover_expired_message ctx functions windows head) ids w in
      let (w'', k) =
        recover_stuck_tasks ctx functions row_locked stale_after (limit - length ids) windows head
          w' in
      (w'', valid (n + m + k))

  -- `QueueReconciler.reconcile`
  unfoldable pub reconcile :
      Settings
      → Context
      → List RegistryItem
      → (ℕ → Bool)
      → Option ℕ
      → ℕ
      → Option ℕ
      → World db
      → World db × Read ℕ
  unfolding recover_each recover_messages
  reconcile s ctx functions row_locked stale_after limit head w =
      if no_paths (dumper_paths functions)
      then (w, valid 0)
      else (let ids = expired_lease_ids db ctx.now w.0 limit (dumper_paths functions) in
          let (w', n) = recover_each (recover_expired_lease ctx functions head) ids w in
          recover_messages ctx functions row_locked stale_after (limit - length ids) head w' n
            (ttl_windows s ctx.rules.registry.queues))
