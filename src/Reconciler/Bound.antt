-- ===== src/Reconciler/Bound.antt =====
-- services/reconciler.py: the sweep as a whole.
use abstract_block_dumper.Prelude.{
  ℕ, suc, ◌+◌, ◌-◌, ◌≤◌, ◌≡◌, String, Bool, true, false, Option, none, some, List, ◌∷◌, [], Dict,
  length, Bool-cases, inl, inr, arith, ◌==◌,
}
use abstract_block_dumper.Attempt.Database.{Database}
use abstract_block_dumper.Attempt.Transitions.{Now, expired_lease_ids}
use abstract_block_dumper.Attempt.Reads.{expired_message_ids, stuck_attempt_ids}
use abstract_block_dumper.Dispatch.{Context, World}
use abstract_block_dumper.Dispatch.Counts.{one_if}
use abstract_block_dumper.Registry.Items.{RegistryItem}
use abstract_block_dumper.Settings.{Settings, Read, valid, value_error}
use abstract_block_dumper.Reconciler.{
  dumper_paths, names, recover_each, recover_expired_message, recover_stuck_tasks, recover_messages,
  reconcile, count_if, ttl_windows, no_paths,
}
use abstract_block_dumper.Reconciler.Laws.{
  IsCounted, recover_expired_lease-IsCounted, recover_expired_message-IsCounted,
  recover_stuck_task-IsCounted,
}

module _ (db : Database) where
  open db use {Table, select_limit}

  -- The attempts recovered, of at most `limit`, are the messages sent.
  record Totals (w : World db) (limit : ℕ) (x : World db × ℕ) : Type 0 where
    within : x.1 ≤ limit
    messages : length x.0.1 ≡ length w.1 + x.1

  one_more :
      (w w' : World db) (b : Bool) (ids : List ℕ) (x : World db × ℕ)
      → length w'.1 ≡ one_if b (length w.1)
      → Totals w' (length ids) x
      → Totals w (suc (length ids)) (x.0, count_if b x.1)
  one_more w w' true ids x e h = record {
    within = omega (arith, h.within);
    messages = omega (arith, e, h.messages);
  }
  one_more w w' false ids x e h = record {
    within = omega (arith, h.within);
    messages = omega (arith, e, h.messages);
  }

  recover_each-Totals :
      (recover : World db → ℕ → World db × Bool)
      → ((w : World db) (id : ℕ) → IsCounted db w (recover w id))
      → (ids : List ℕ) (w : World db) → Totals w (length ids) (recover_each recover ids w)
  unfolding recover_each IsCounted
  recover_each-Totals recover h [] w = record { within = omega arith; messages = omega arith }
  recover_each-Totals recover h (id ∷ ids) w =
      one_more w (recover w id).0 (recover w id).1 ids (recover_each recover ids (recover w id).0)
        (h w id) (recover_each-Totals recover h ids (recover w id).0)

  widened : (w : World db) (m n : ℕ) (x : World db × ℕ) → m ≤ n → Totals w m x → Totals w n x
  widened w m n x le h = record { within = omega (arith, le, h.within); messages = h.messages }

  stuck_attempt_ids-limit :
      (t : Table) (max_attempt_limit stale_before limit : ℕ) (paths ttl_queues : List String)
      → length (stuck_attempt_ids db t max_attempt_limit stale_before limit paths ttl_queues)
        ≤ limit
  unfolding stuck_attempt_ids
  stuck_attempt_ids-limit t max_attempt_limit stale_before limit paths ttl_queues =
      elim (Bool-cases (limit == 0)) [
        | inl y ↦ rw y (omega arith)
        | inr n ↦ rw n (select_limit t _ _ limit)
      ]

  expired_message_ids-limit :
      (now : Now) (t : Table) (windows : Dict ℕ) (limit : ℕ) (paths : List String)
      → length (expired_message_ids db now t windows limit paths) ≤ limit
  unfolding expired_message_ids
  expired_message_ids-limit now t [] limit paths = omega arith
  expired_message_ids-limit now t (x ∷ xs) limit paths = elim (Bool-cases (limit == 0)) [
    | inl y ↦ rw y (omega arith)
    | inr n ↦ rw n (select_limit t _ _ limit)
  ]

  expired_lease_ids-limit :
      (now : Now) (t : Table) (limit : ℕ) (paths : List String)
      → length (expired_lease_ids db now t limit paths) ≤ limit
  unfolding expired_lease_ids
  expired_lease_ids-limit now t limit paths = select_limit t _ _ limit

  recover_stuck_tasks-Totals :
      (ctx : Context) (functions : List RegistryItem) (row_locked : ℕ → Bool)
      (stale_after : Option ℕ) (limit : ℕ) (windows : Dict ℕ) (head : Option ℕ) (w : World db)
      → Totals w limit
          (recover_stuck_tasks db ctx functions row_locked stale_after limit windows head w)
  unfolding recover_stuck_tasks
  recover_stuck_tasks-Totals ctx functions row_locked none limit windows head w = record {
    within = omega arith;
    messages = omega arith;
  }
  recover_stuck_tasks-Totals ctx functions row_locked (some stale_after) limit windows head w =
      widened w _ limit _
        (stuck_attempt_ids-limit w.0 ctx.rules.max_attempt_limit _ limit (dumper_paths functions)
          (names windows))
        (recover_each-Totals _
          (recover_stuck_task-IsCounted db ctx functions row_locked (ctx.now.local - stale_after)
            windows head)
          _ w)

  -- Whether a sweep that ended kept within its limit and counted its messages.
  abbrev pub IsAccounted : World db → ℕ → World db × Read ℕ → Type 0
  IsAccounted w limit (w', value_error) = Unit {0}
  IsAccounted w limit (w', valid n) = (n ≤ limit) × (length w'.1 ≡ length w.1 + n)

  recover_messages-IsAccounted :
      (ctx : Context) (functions : List RegistryItem) (row_locked : ℕ → Bool)
      (stale_after : Option ℕ) (limit done : ℕ) (head : Option ℕ) (w w' : World db) (n : ℕ)
      (windows : Read (Dict ℕ))
      → done ≤ limit
      → Totals w done (w', n)
      → IsAccounted w limit (
          recover_messages db ctx functions row_locked stale_after (limit - done) head w' n windows)
  unfolding recover_messages
  recover_messages-IsAccounted ctx functions row_locked stale_after limit done head w w' n
        value_error le h =
      tt
  recover_messages-IsAccounted ctx functions row_locked stale_after limit done head w w' n
        (valid windows) le h =
      let ids =
        expired_message_ids db ctx.now w'.0 windows (limit - done) (dumper_paths functions) in
      let few =
        expired_message_ids-limit ctx.now w'.0 windows (limit - done) (dumper_paths functions) in
      let m =
        recover_each-Totals _ (recover_expired_message-IsCounted db ctx functions windows head) ids
          w' in
      let k =
        recover_stuck_tasks-Totals ctx functions row_locked stale_after (limit - done - length ids)
          windows head
          (recover_each (recover_expired_message db ctx functions windows head) ids w').0 in
      (
        omega (arith, le, h.within, few, m.within, k.within),
        omega (arith, h.messages, m.messages, k.messages),
      )

  -- A sweep that ends recovers at most its limit of attempts, over all three kinds, and the number
  -- that it returns is the number of messages that it sent.
  pub reconcile-IsAccounted :
      (s : Settings) (ctx : Context) (functions : List RegistryItem) (row_locked : ℕ → Bool)
      (stale_after : Option ℕ) (limit : ℕ) (head : Option ℕ) (w : World db)
      → IsAccounted w limit (reconcile db s ctx functions row_locked stale_after limit head w)
  unfolding reconcile
  reconcile-IsAccounted s ctx functions row_locked stale_after limit head w =
      let ids = expired_lease_ids db ctx.now w.0 limit (dumper_paths functions) in
      elim (Bool-cases (no_paths (dumper_paths functions))) [
        | inl y ↦ rw y (omega arith, omega arith)
        | inr n ↦ rw n (
            recover_messages-IsAccounted ctx functions row_locked stale_after limit (length ids)
              head w _ _ (ttl_windows s ctx.rules.registry.queues)
              (expired_lease_ids-limit ctx.now w.0 limit (dumper_paths functions))
              (recover_each-Totals _ (recover_expired_lease-IsCounted db ctx functions head) ids w))
      ]
