-- ===== src/Dispatch/Laws.antt =====
-- services/queue_executor.py: what the executor sends, and when it sends nothing.
use abstract_block_dumper.Prelude.{
  ℕ, ◌≡◌, refl, String, Bool, true, false, not, ◌&&◌, Option, none, some, ◌∷◌, [], ◌++◌, Bool-cases,
  Option-cases, inl, inr, arith, ap, ◌∙◌,
}
use abstract_block_dumper.Queue.{Queue}
use abstract_block_dumper.Attempt.{TaskAttempt, is_pending}
use abstract_block_dumper.Attempt.Database.{Database, holds, map_row, set_if}
use abstract_block_dumper.Attempt.Transitions.{Now, retry_where, requeue_set, requeue_for_retry}
use abstract_block_dumper.Attempt.Results.{transition_result, get-transition}
use abstract_block_dumper.Attempt.Reopen.{create_or_reopen, get_or_create, may_reopen}
use abstract_block_dumper.Registry.Items.{RegistryItem}
use abstract_block_dumper.Dispatch.{
  Message, Context, Sending, sent, not_sent, is_sent, submission_policy, gave_up, World, post,
  send_under, submit_loaded, execute, send_retry, send_retry_to, dispatch_retry,
}

module _ (db : Database) where
  open db use {Table, get, find}

  -- What a call of `execute` may do to the messages: one message of this block and task, if it was
  -- sent, and none else.
  pub record IsOneSubmission (w w' : World db) (s : Sending) (item : RegistryItem) (block : ℕ)
      (args : String) : Type 0 where
    pub one_sent :
        s ≡ sent
        → (m : Message) × (w'.1 ≡ w.1 ++ m ∷ [])
          × (m.task ≡ item.executable_path)
          × (m.block_number ≡ block)
          × (m.args ≡ args)
    pub none_sent : is_sent s ≡ false → w'.1 ≡ w.1

  pub post_one :
      (ctx : Context) (w v : World db) (m : Message) (item : RegistryItem) (block : ℕ)
      (args : String)
      → v.1 ≡ w.1
      → m.task ≡ item.executable_path
      → m.block_number ≡ block
      → m.args ≡ args
      → IsOneSubmission w (post db ctx v m).0 (post db ctx v m).1 item block args
  post_one ctx w v m item block args e t b a = elim (Bool-cases (ctx.accepts m)) [
    | inl y ↦
        rw y
          (record { one_sent = λ h. (m, ap (λ ms. ms ++ m ∷ []) e, t, b, a); none_sent = λ h. cc })
    | inr n ↦ rw n (record { one_sent = λ h. cc; none_sent = λ h. e })
  ]

  submit_loaded_one :
      (ctx : Context) (w v : World db) (id : ℕ) (created : Bool) (item : RegistryItem) (block : ℕ)
      (args : String) (use_archive : Bool) (queue : Option Queue) (head : Option ℕ)
      (o : Option TaskAttempt)
      → v.1 ≡ w.1
      → let (w', s) = submit_loaded db ctx v id created item block args use_archive queue head o in
        IsOneSubmission w w' s item block args
  unfolding submit_loaded send_under
  submit_loaded_one ctx w v id created item block args use_archive queue head none e = record {
    one_sent = λ h. cc;
    none_sent = λ h. e;
  }
  submit_loaded_one ctx w v id created item block args use_archive queue head (some r) e =
      elim (Bool-cases (not created && not (is_pending r.status))) [
        | inl y ↦ rw y (record { one_sent = λ h. cc; none_sent = λ h. e })
        | inr n ↦
            rw n (elim (Option-cases (submission_policy ctx.rules.registry item r created queue)) [
              | inl absent ↦ rw absent (record { one_sent = λ h. cc; none_sent = λ h. e })
              | inr (q, some_q) ↦
                  rw some_q (elim (Bool-cases (gave_up db ctx.now v.0 id item r q head).1) [
                    | inl g ↦ rw g (record { one_sent = λ h. cc; none_sent = λ h. e })
                    | inr g ↦ rw g (post_one ctx w (_, v.1) _ item block args e refl refl refl)
                  ])
            ])
      ]

  -- A submission that was sent appends one message, of this task, block and arguments; one that was
  -- not sent, or raised, leaves the messages as they are.
  pub execute_sends_one :
      (ctx : Context) (w : World db) (item : RegistryItem) (block : ℕ) (args : String)
      (use_archive : Bool) (queue : Option Queue) (head : Option ℕ)
      → let (w', s) = execute db ctx w item block args use_archive queue head in
        IsOneSubmission w w' s item block args
  unfolding execute
  execute_sends_one ctx w item block args use_archive queue head =
      submit_loaded_one ctx w (_, w.1) _ _ item block args use_archive queue head _ refl

  get_or_create_found :
      (now : Now) (t : Table) (block : ℕ) (path args : String) (id : ℕ)
      → find t block path args ≡ some id
      → get_or_create db now t block path args ≡ (t, id, false)
  unfolding get_or_create
  get_or_create_found now t block path args id f = rw (get_or_create, f) refl

  create_or_reopen_settled :
      (now : Now) (t : Table) (limit block : ℕ) (path args : String) (id : ℕ) (r : TaskAttempt)
      → find t block path args ≡ some id
      → get t id ≡ some r
      → may_reopen db now limit r ≡ false
      → create_or_reopen db now t limit block path args ≡ (t, id, false)
  unfolding create_or_reopen
  create_or_reopen_settled now t limit block path args id r f g m =
      rw (get_or_create_found now t block path args id f) (rw g (rw m refl))

  -- A submission whose attempt exists and is neither PENDING nor may be reopened now sends nothing and
  -- changes nothing: the attempt runs, has succeeded, was given up, or waits for its retry time.
  pub execute_settled :
      (ctx : Context) (w : World db) (item : RegistryItem) (block : ℕ) (args : String)
      (use_archive : Bool) (queue : Option Queue) (head : Option ℕ) (id : ℕ) (r : TaskAttempt)
      → find w.0 block item.executable_path args ≡ some id
      → get w.0 id ≡ some r
      → is_pending r.status ≡ false
      → may_reopen db ctx.now ctx.rules.max_attempt_limit r ≡ false
      → execute db ctx w item block args use_archive queue head ≡ (w, not_sent)
  unfolding execute submit_loaded
  execute_settled ctx w item block args use_archive queue head id r f g p m =
      rw
        (create_or_reopen_settled ctx.now w.0 ctx.rules.max_attempt_limit block item.executable_path
          args id r f g m)
        (rw g (rw p refl))

  -- A retry that the row's state refuses.
  send_retry_refused :
      (ctx : Context) (w : World db) (id : ℕ) (item : RegistryItem) (r : TaskAttempt)
      (use_archive : Bool) (eta : ℕ) (q : Queue)
      → holds retry_where (get w.0 id) ≡ false
      → (is_sent (send_retry db ctx w id item r use_archive eta q).1 ≡ false)
        × ((send_retry db ctx w id item r use_archive eta q).0.1 ≡ w.1)
  unfolding send_retry requeue_for_retry
  send_retry_refused ctx w id item r use_archive eta q h =
      let e : (requeue_for_retry db ctx.now w.0 id q.name).1 ≡ false =
        transition_result db w.0 id retry_where (requeue_set ctx.now q.name) ∙ h in
      rw e (refl, refl)

  post_table : (ctx : Context) (w : World db) (m : Message) → (post db ctx w m).0.0 ≡ w.0
  post_table ctx w m = elim (Bool-cases (ctx.accepts m)) [ inl y ↦ rw y refl | inr n ↦ rw n refl ]

  -- A requeued row is PENDING.
  requeued :
      (now : Now) (queue : String) (o : Option TaskAttempt)
      → holds retry_where (map_row (set_if retry_where (requeue_set now queue)) o) ≡ false
  requeued now queue none = refl
  requeued now queue (some r) = ground arith

  -- A retry that was sent: its row is PENDING, so that no other retry of it is due.
  send_retry_sent :
      (ctx : Context) (w : World db) (id : ℕ) (item : RegistryItem) (r : TaskAttempt)
      (use_archive : Bool) (eta : ℕ) (q : Queue)
      → is_sent (send_retry db ctx w id item r use_archive eta q).1 ≡ true
      → (holds retry_where (get w.0 id) ≡ true)
        × (holds retry_where (get (send_retry db ctx w id item r use_archive eta q).0.0 id) ≡ false)
  unfolding send_retry requeue_for_retry
  send_retry_sent ctx w id item r use_archive eta q h =
      elim (Bool-cases (holds retry_where (get w.0 id))) [
        | inl y ↦ rw (transition_result db w.0 id retry_where (requeue_set ctx.now q.name) ∙ y) (
          y,
          rw (post_table ctx _ _) (
              rw (get-transition db w.0 id retry_where (requeue_set ctx.now q.name))
                (requeued ctx.now q.name (get w.0 id))),
        )
        | inr n ↦
            cc (rw (transition_result db w.0 id retry_where (requeue_set ctx.now q.name) ∙ n) at h)
      ]

  send_retry_to_refused :
      (ctx : Context) (w : World db) (id : ℕ) (item : RegistryItem) (r : TaskAttempt)
      (use_archive : Bool) (eta : Option ℕ) (q : Option Queue)
      → holds retry_where (get w.0 id) ≡ false
      → (is_sent (send_retry_to db ctx w id item r use_archive eta q).1 ≡ false)
        × ((send_retry_to db ctx w id item r use_archive eta q).0.1 ≡ w.1)
  unfolding send_retry_to
  send_retry_to_refused ctx w id item r use_archive none q h = (refl, refl)
  send_retry_to_refused ctx w id item r use_archive (some eta) none h = (refl, refl)
  send_retry_to_refused ctx w id item r use_archive (some eta) (some q) h =
      send_retry_refused ctx w id item r use_archive eta q h

  send_retry_to_sent :
      (ctx : Context) (w : World db) (id : ℕ) (item : RegistryItem) (r : TaskAttempt)
      (use_archive : Bool) (eta : Option ℕ) (q : Option Queue)
      → is_sent (send_retry_to db ctx w id item r use_archive eta q).1 ≡ true
      → (holds retry_where (get w.0 id) ≡ true)
        × (holds retry_where (get (send_retry_to db ctx w id item r use_archive eta q).0.0 id)
            ≡ false)
  unfolding send_retry_to
  send_retry_to_sent ctx w id item r use_archive none q h = cc
  send_retry_to_sent ctx w id item r use_archive (some eta) none h = cc
  send_retry_to_sent ctx w id item r use_archive (some eta) (some q) h =
      send_retry_sent ctx w id item r use_archive eta q h

  -- A retry is sent only for an attempt that is FAILED and not given up, and at most once: when one
  -- sender's retry went out, another sender's retry of the same attempt, with the row as it loaded it
  -- before, sends nothing.
  pub dispatch_retry_once :
      (ctx ctx' : Context) (w : World db) (id : ℕ) (item item' : RegistryItem) (r r' : TaskAttempt)
      (use_archive use_archive' : Bool)
      → is_sent (dispatch_retry db ctx w id item r use_archive).1 ≡ true
      → (holds retry_where (get w.0 id) ≡ true)
        × (let w' = (dispatch_retry db ctx w id item r use_archive).0 in
            (is_sent (dispatch_retry db ctx' w' id item' r' use_archive').1 ≡ false)
            × ((dispatch_retry db ctx' w' id item' r' use_archive').0.1 ≡ w'.1))
  unfolding dispatch_retry
  dispatch_retry_once ctx ctx' w id item item' r r' use_archive use_archive' h =
      let s = send_retry_to_sent ctx w id item r use_archive _ _ h in
      (s.0, send_retry_to_refused ctx' _ id item' r' use_archive' _ _ s.1)
