-- ===== src/Dispatch/Counts.antt =====
-- services/queue_executor.py: the answer of a call tells whether it sent a message.
use abstract_block_dumper.Prelude.{
  ℕ, suc, ◌≡◌, refl, String, Bool, true, false, Option, none, some, List, ◌∷◌, [], ◌++◌, ap,
  Bool-cases, inl, inr, length, ◌∙◌,
}
use abstract_block_dumper.Queue.{Queue}
use abstract_block_dumper.Attempt.{TaskAttempt}
use abstract_block_dumper.Attempt.Database.{Database}
use abstract_block_dumper.Attempt.Transitions.{requeue_for_retry}
use abstract_block_dumper.Dispatch.{
  Message, Context, Sending, sent, not_sent, raised, is_sent, World, post, execute, send_retry,
  send_retry_to, dispatch_retry,
}
use abstract_block_dumper.Dispatch.Laws.{IsOneSubmission, execute_sends_one}
use abstract_block_dumper.Registry.Items.{RegistryItem}

abbrev pub one_if : Bool → ℕ → ℕ
one_if true n = suc n
one_if false n = n

pub length-snoc {ℓ} : {A : Type ℓ} (xs : List A) (x : A) → length (xs ++ x ∷ []) ≡ suc (length xs)
length-snoc [] x = refl
length-snoc (y ∷ xs) x = ap suc (length-snoc xs x)

module _ (db : Database) where
  -- One more message, if the answer is that one was sent.
  abbrev pub Counts : World db → World db × Sending → Type 0
  Counts w (w', s) = length w'.1 ≡ one_if (is_sent s) (length w.1)

  post-Counts : (ctx : Context) (w : World db) (m : Message) → Counts w (post db ctx w m)
  post-Counts ctx w m = elim (Bool-cases (ctx.accepts m)) [
    | inl y ↦ rw y (length-snoc w.1 m)
    | inr n ↦ rw n refl
  ]

  one-Counts :
      (w w' : World db) (s : Sending) (item : RegistryItem) (block : ℕ) (args : String)
      → IsOneSubmission db w w' s item block args
      → Counts w (w', s)
  one-Counts w w' sent item block args one =
      let m = one.one_sent refl in ap length m.1 ∙ length-snoc w.1 m.0
  one-Counts w w' not_sent item block args one = ap length (one.none_sent refl)
  one-Counts w w' raised item block args one = ap length (one.none_sent refl)

  pub execute-Counts :
      (ctx : Context) (w : World db) (item : RegistryItem) (block : ℕ) (args : String)
      (use_archive : Bool) (queue : Option Queue) (head : Option ℕ)
      → Counts w (execute db ctx w item block args use_archive queue head)
  execute-Counts ctx w item block args use_archive queue head =
      one-Counts w _ _ item block args
        (execute_sends_one db ctx w item block args use_archive queue head)

  send_retry-Counts :
      (ctx : Context) (w : World db) (id : ℕ) (item : RegistryItem) (r : TaskAttempt)
      (use_archive : Bool) (eta : ℕ) (q : Queue)
      → Counts w (send_retry db ctx w id item r use_archive eta q)
  unfolding send_retry
  send_retry-Counts ctx w id item r use_archive eta q =
      elim (Bool-cases (requeue_for_retry db ctx.now w.0 id q.name).1) [
        | inl y ↦ rw y (post-Counts ctx (_, w.1) _)
        | inr n ↦ rw n refl
      ]

  send_retry_to-Counts :
      (ctx : Context) (w : World db) (id : ℕ) (item : RegistryItem) (r : TaskAttempt)
      (use_archive : Bool) (eta : Option ℕ) (q : Option Queue)
      → Counts w (send_retry_to db ctx w id item r use_archive eta q)
  unfolding send_retry_to
  send_retry_to-Counts ctx w id item r use_archive none q = refl
  send_retry_to-Counts ctx w id item r use_archive (some eta) none = refl
  send_retry_to-Counts ctx w id item r use_archive (some eta) (some q) =
      send_retry-Counts ctx w id item r use_archive eta q

  pub dispatch_retry-Counts :
      (ctx : Context) (w : World db) (id : ℕ) (item : RegistryItem) (r : TaskAttempt)
      (use_archive : Bool)
      → Counts w (dispatch_retry db ctx w id item r use_archive)
  unfolding dispatch_retry
  dispatch_retry-Counts ctx w id item r use_archive =
      send_retry_to-Counts ctx w id item r use_archive _ _
