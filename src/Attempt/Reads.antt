-- ===== src/Attempt/Reads.antt =====
-- _internal/dal/queue_attempts.py: which attempts of `BlockDumper` tasks are in flight, lost, or may
-- run again. `max_attempt_limit` is the setting `BLOCK_DUMPER_MAX_ATTEMPTS`.
use abstract_block_dumper.Prelude.{
  ℕ, ◌+◌, ◌≡◌, String, Bool, true, false, ◌&&◌, ◌||◌, not, Option, none, some, List, [], ◌∷◌, Dict,
  ltb, leb, ◌==◌, col_lt, col_le, col_ge, col_eq, among, is_none, is_some, if◌then◌else◌, or_else,
  arith,
}
use abstract_block_dumper.Attempt.{TaskAttempt, is_pending, is_running, is_success, is_failed}
use abstract_block_dumper.Attempt.Database.{Database}
use abstract_block_dumper.Attempt.Transitions.{Now, expired_message_filter}

-- `column >= bound - window`
abbrev pub col_since : Option ℕ → ℕ → ℕ → Bool
col_since none window bound = false
col_since (some a) window bound = leb bound (a + window)

abbrev pub column_among : Option String → List String → Bool
column_among none names = false
column_among (some name) names = among name names

-- RUNNING under a lease that has not passed, or under none.
abbrev running_inflight : Now → TaskAttempt → Bool
running_inflight now r =
    is_running r.status && (is_none r.lease_expires_at || col_ge r.lease_expires_at now.db)

-- A message that is neither expired nor too old; without a TTL and a timeout every message counts.
abbrev message_alive : Now → Option ℕ → Option ℕ → TaskAttempt → Bool
message_alive now (some window) stale_before r =
    col_since r.dispatched_at window now.db || col_since r.next_retry_at window now.local
message_alive now none (some bound) r = leb bound r.updated_at || col_ge r.next_retry_at bound
message_alive now none none r = true

-- PENDING, and not waiting for a retry in the future.
abbrev pending_inflight : Now → Option ℕ → Option ℕ → TaskAttempt → Bool
pending_inflight now ttl_window stale_before r =
    is_pending r.status
    && (is_none r.next_retry_at || col_le r.next_retry_at now.local)
    && message_alive now ttl_window stale_before r

unfoldable pub inflight_where : Now → String → Option ℕ → Option ℕ → TaskAttempt → Bool
inflight_where now queue_name ttl_window stale_before r =
    col_eq r.dispatch_queue queue_name
    && (running_inflight now r || pending_inflight now ttl_window stale_before r)

-- `_stuck_filter`, as the database evaluates it.
unfoldable pub stuck_filter : ℕ → ℕ → List String → TaskAttempt → Bool
stuck_filter max_attempt_limit stale_before ttl_queues r =
    let waited = is_none r.next_retry_at || col_lt r.next_retry_at stale_before in
    let in_flight =
      (is_pending r.status || (is_running r.status && is_none r.lease_expires_at))
      && ltb r.updated_at stale_before
      && waited
      && not (
          is_pending r.status
          && column_among r.dispatch_queue ttl_queues
          && is_some r.dispatched_at) in
    let orphaned_retry =
      is_failed r.status && is_some r.next_retry_at && col_lt r.next_retry_at stale_before in
    let within_attempts = is_some r.dispatch_queue || ltb r.attempt_count max_attempt_limit in
    (in_flight || orphaned_retry) && within_attempts

-- `is_stuck`, the early returns in the source's order.
unfoldable pub is_stuck : ℕ → ℕ → List String → TaskAttempt → Bool
is_stuck max_attempt_limit stale_before ttl_queues r =
    if is_none r.dispatch_queue && leb max_attempt_limit r.attempt_count
    then false
    else if is_running r.status && is_some r.lease_expires_at
    then false
    else if is_pending r.status
        && column_among r.dispatch_queue ttl_queues
        && is_some r.dispatched_at
    then false
    else if is_pending r.status || is_running r.status
    then ltb r.updated_at stale_before
      && (is_none r.next_retry_at || col_lt r.next_retry_at stale_before)
    else if is_failed r.status
    then is_some r.next_retry_at && col_lt r.next_retry_at stale_before
    else false

unfoldable pub can_run_again : ℕ → TaskAttempt → Bool
can_run_again max_attempt_limit r =
    if is_success r.status || is_running r.status || is_some r.give_up_reason
    then false
    else if is_some r.dispatch_queue
    then true
    else ltb r.attempt_count max_attempt_limit

module _ (db : Database) where
  open db use {Table}

  unfoldable pub count_inflight : Now → Table → String → Option ℕ → Option ℕ → ℕ
  count_inflight now t queue_name ttl_window stale_before =
      db.count t (inflight_where now queue_name ttl_window stale_before)

  abbrev is_empty : Dict ℕ → Bool
  is_empty [] = true
  is_empty (entry ∷ rest) = false

  -- `limit` is what the sweep has left, so the source's test `limit <= 0` is a test for 0.
  unfoldable pub expired_message_ids : Now → Table → Dict ℕ → ℕ → List String → List ℕ
  expired_message_ids now t windows limit paths =
      if is_empty windows || limit == 0
      then []
      else db.select t (λ r. expired_message_filter now windows r && among r.executable_path paths)
          (λ r. or_else r.dispatched_at 0) limit

  unfoldable pub stuck_attempt_ids : Table → ℕ → ℕ → ℕ → List String → List String → List ℕ
  stuck_attempt_ids t max_attempt_limit stale_before limit paths ttl_queues =
      if limit == 0
      then []
      else db.select t
          (λ r.
            stuck_filter max_attempt_limit stale_before ttl_queues r
            && among r.executable_path paths)
          (λ r. r.updated_at) limit

-- The re-check under the row lock is the query's predicate: a row is stuck for `is_stuck` exactly
-- when `_stuck_filter` selects it.
pub is_stuck-eq-stuck_filter :
    (max_attempt_limit stale_before : ℕ) (ttl_queues : List String) (r : TaskAttempt)
    → is_stuck max_attempt_limit stale_before ttl_queues r
      ≡ stuck_filter max_attempt_limit stale_before ttl_queues r
unfolding is_stuck stuck_filter
is_stuck-eq-stuck_filter max_attempt_limit stale_before ttl_queues r = ground arith
