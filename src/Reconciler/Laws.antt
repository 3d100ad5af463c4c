-- ===== src/Reconciler/Laws.antt =====
-- services/reconciler.py: the sweep handles at most its limit, and counts the messages it sends.
use abstract_block_dumper.Prelude.{
  ℕ, ◌≡◌, refl, Bool, Option, none, some, List, Dict, length, Bool-cases, Option-cases, inl, inr,
  is_some,
}
use abstract_block_dumper.Queue.{Queue}
use abstract_block_dumper.Attempt.{TaskAttempt}
use abstract_block_dumper.Attempt.Database.{Database}
use abstract_block_dumper.Attempt.Transitions.{
  fail_expired_lease, claim_expired_message, transition,
}
use abstract_block_dumper.Attempt.Reads.{is_stuck}
use abstract_block_dumper.Attempt.Events.{reset_set}
use abstract_block_dumper.Dispatch.{Context, World, redispatch_queue}
use abstract_block_dumper.Dispatch.Counts.{execute-Counts, dispatch_retry-Counts, one_if}
use abstract_block_dumper.Registry.Items.{RegistryItem, get_by_executable_path}
use abstract_block_dumper.Retry.Rules.{RetryDelay, no_retry, retry_in, failure, retry_delay}
use abstract_block_dumper.Reconciler.{
  needs_archive, names, retry_failed, retry_refreshed, fail_lease, recover_lease_under,
  recover_expired_lease, send_again, recover_message_of, recover_expired_message, recover_stuck_of,
  recover_stuck_task,
}

module _ (db : Database) where
  open db use {Table, get}

  -- A recovery counts exactly when it sent a message.
  unfoldable pub IsCounted : World db → World db × Bool → Type 0
  IsCounted w (w', b) = length w'.1 ≡ one_if b (length w.1)

  retry_refreshed-IsCounted :
      (ctx : Context) (functions : List RegistryItem) (w : World db) (id : ℕ) (head : Option ℕ)
      (o : Option TaskAttempt)
      → IsCounted w (retry_refreshed db ctx functions w id head o)
  unfolding retry_failed IsCounted
  retry_refreshed-IsCounted ctx functions w id head none = refl
  retry_refreshed-IsCounted ctx functions w id head (some r) =
      go (get_by_executable_path functions r.executable_path)
    where
      go : (o : Option RegistryItem) → IsCounted w (retry_failed db ctx w id head r o)
      go none = refl
      go (some item) = elim (Bool-cases (is_some r.give_up_reason)) [
        | inl y ↦ rw y refl
        | inr n ↦ rw n (dispatch_retry-Counts db ctx w id item r (needs_archive r head))
      ]

  fail_lease-IsCounted :
      (ctx : Context) (functions : List RegistryItem) (w : World db) (id : ℕ)
      (head delay : Option ℕ)
      → IsCounted w (fail_lease db ctx functions w id head delay)
  unfolding fail_lease IsCounted
  fail_lease-IsCounted ctx functions w id head delay =
      elim (Bool-cases (fail_expired_lease db ctx.now w.0 id delay).1) [
        | inl y ↦ rw y (retry_refreshed-IsCounted ctx functions (_, w.1) id head _)
        | inr n ↦ rw n refl
      ]

  recover_lease_under-IsCounted :
      (ctx : Context) (functions : List RegistryItem) (w : World db) (id : ℕ) (head : Option ℕ)
      (d : RetryDelay)
      → IsCounted w (recover_lease_under db ctx functions w id head d)
  unfolding recover_lease_under IsCounted
  recover_lease_under-IsCounted ctx functions w id head no_retry =
      fail_lease-IsCounted ctx functions w id head none
  recover_lease_under-IsCounted ctx functions w id head (retry_in d) =
      fail_lease-IsCounted ctx functions w id head (some d)
  recover_lease_under-IsCounted ctx functions w id head failure = refl

  pub recover_expired_lease-IsCounted :
      (ctx : Context) (functions : List RegistryItem) (head : Option ℕ) (w : World db) (id : ℕ)
      → IsCounted w (recover_expired_lease db ctx functions head w id)
  unfolding recover_expired_lease IsCounted
  recover_expired_lease-IsCounted ctx functions head w id = elim (Option-cases (get w.0 id)) [
    | inl e ↦ rw (recover_expired_lease, e) refl
    | inr (r, e) ↦
        rw (recover_expired_lease, e)
          (recover_lease_under-IsCounted ctx functions w id head (retry_delay ctx.rules r))
  ]

  send_again-IsCounted :
      (ctx : Context) (w : World db) (head : Option ℕ) (item : RegistryItem) (r : TaskAttempt)
      (q : Option Queue)
      → IsCounted w (send_again db ctx w head item r q)
  unfolding send_again IsCounted
  send_again-IsCounted ctx w head item r none = refl
  send_again-IsCounted ctx w head item r (some q) =
      execute-Counts db ctx w item r.block_number r.args_json (needs_archive r head) (some q) head

  recover_message_of-IsCounted :
      (ctx : Context) (w : World db) (id : ℕ) (windows : Dict ℕ) (head : Option ℕ) (r : TaskAttempt)
      (o : Option RegistryItem)
      → IsCounted w (recover_message_of db ctx w id windows head r o)
  unfolding recover_message_of IsCounted
  recover_message_of-IsCounted ctx w id windows head r none = refl
  recover_message_of-IsCounted ctx w id windows head r (some item) =
      elim (Bool-cases (claim_expired_message db ctx.now w.0 id windows).1) [
        | inl y ↦ rw y (
            send_again-IsCounted ctx (_, w.1) head item r
              (redispatch_queue ctx.rules.registry item r))
        | inr n ↦ rw n refl
      ]

  pub recover_expired_message-IsCounted :
      (ctx : Context) (functions : List RegistryItem) (windows : Dict ℕ) (head : Option ℕ)
      (w : World db) (id : ℕ)
      → IsCounted w (recover_expired_message db ctx functions windows head w id)
  unfolding recover_expired_message IsCounted
  recover_expired_message-IsCounted ctx functions windows head w id =
      elim (Option-cases (get w.0 id)) [
        | inl e ↦ rw (recover_expired_message, e) refl
        | inr (r, e) ↦
            rw (recover_expired_message, e)
              (recover_message_of-IsCounted ctx w id windows head r
                (get_by_executable_path functions r.executable_path))
      ]

  recover_stuck_of-IsCounted :
      (ctx : Context) (w : World db) (id stale_before : ℕ) (windows : Dict ℕ) (head : Option ℕ)
      (r : TaskAttempt) (o : Option RegistryItem)
      → IsCounted w (recover_stuck_of db ctx w id stale_before windows head r o)
  unfolding recover_stuck_of IsCounted
  recover_stuck_of-IsCounted ctx w id stale_before windows head r none = refl
  recover_stuck_of-IsCounted ctx w id stale_before windows head r (some item) =
      elim (Bool-cases
        (transition db w.0 id (is_stuck ctx.rules.max_attempt_limit stale_before (names windows))
          (reset_set ctx.now)).1) [
            | inl y ↦ rw y (
                send_again-IsCounted ctx (_, w.1) head item r
                  (redispatch_queue ctx.rules.registry item r))
            | inr n ↦ rw n refl
          ]

  pub recover_stuck_task-IsCounted :
      (ctx : Context) (functions : List RegistryItem) (row_locked : ℕ → Bool) (stale_before : ℕ)
      (windows : Dict ℕ) (head : Option ℕ) (w : World db) (id : ℕ)
      → IsCounted w (recover_stuck_task db ctx functions row_locked stale_before windows head w id)
  unfolding recover_stuck_task IsCounted
  recover_stuck_task-IsCounted ctx functions row_locked stale_before windows head w id =
      elim (Bool-cases (row_locked id)) [
        | inl y ↦ rw y refl
        | inr n ↦ rw n (elim (Option-cases (get w.0 id)) [
          | inl e ↦ rw e refl
          | inr (r, e) ↦ rw e (
              recover_stuck_of-IsCounted ctx w id stale_before windows head r
                (get_by_executable_path functions r.executable_path))
        ])
      ]
