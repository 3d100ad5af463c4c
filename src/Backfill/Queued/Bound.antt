-- ===== src/Backfill/Queued/Bound.antt =====
-- _internal/services/queue_backfiller.py: a pass counts what it sends, and keeps to the throttle.
use abstract_block_dumper.Prelude.{
  ℕ, suc, ◌+◌, ◌≤◌, ◌≡◌, refl, String, Bool, true, false, Option, none, some, List, ◌∷◌, [], Result,
  returned, raises, length, lookup, Bool-cases, inl, inr, arith, ap, ◌∙◌, sym, subst,
}
use abstract_block_dumper.Numeric.{Value, ℤ, plus, minus}
use abstract_block_dumper.Queue.{Queue}
use abstract_block_dumper.Attempt.Database.{Database}
use abstract_block_dumper.Backfill.{
  block_range, Pass, submitted, aborted, one_more, after_block, after_pass, backfill_target,
}
use abstract_block_dumper.Backfill.Queued.{
  State, settle, submit_admitted, submit_matching, submit_block, submit_blocks, submit_args,
  process_item_range,
}
use abstract_block_dumper.Dispatch.{Context, Sending, sent, not_sent, raised, World}
use abstract_block_dumper.Dispatch.Laws.{IsOneSubmission, execute_sends_one}
use abstract_block_dumper.Registry.Items.{RegistryItem, policy, get_execution_args}
use abstract_block_dumper.Settings.{Settings, Read, valid, value_error}
use abstract_block_dumper.Throttle.{
  Gate, Admission, admitted, refused, waiting, admit, has_room, spent,
}
use abstract_block_dumper.Backfill.Queued.Room.{Room, Kept, AfterAdmit, spent-Kept, admit-Kept}
use abstract_block_dumper.Dispatch.Counts.{length-snoc}

module _ (db : Database) (s : Settings) (poll_seconds : Value) where
  open db use {Table}

  -- One submission: the gate keeps to the room, and a message went out exactly when it counts.
  AfterStep : Queue → ℕ → ℕ → World db → State db s poll_seconds × Result Bool → Type 0
  AfterStep q limit n before (st, raises) = Unit {0}
  AfterStep q limit n before (st, returned b) =
      Kept q limit (one_more b n) st.1 × (length st.0.1 ≡ one_more b (length before.1))

  settle-AfterStep :
      (item : RegistryItem) (q : Queue) (limit n : ℕ) (g : Gate Table) (w w' : World db)
      (o : Sending) (block : ℕ) (args : String)
      → backfill_target item ≡ some (policy q)
      → Kept q limit n g
      → has_room (lookup q.name g.free) ≡ true
      → IsOneSubmission db w w' o item block args
      → AfterStep q limit n w (settle db s poll_seconds item g (w', o))
  unfolding settle AfterStep
  settle-AfterStep item q limit n g w w' sent block args e k h one =
      let m = one.one_sent refl in
      (
        subst (λ t. Kept q limit (suc n) (spent g t)) (sym e) (spent-Kept q limit n g k h),
        ap length m.1 ∙ length-snoc w.1 m.0,
      )
  settle-AfterStep item q limit n g w w' not_sent block args e k h one =
      (k, ap length (one.none_sent refl))
  settle-AfterStep item q limit n g w w' raised block args e k h one = tt

  submit_admitted-AfterStep :
      (ctx : Context) (threshold head : ℕ) (item : RegistryItem) (block : ℕ) (args : String)
      (w : World db) (a : Read (Gate Table × Admission)) (g : Gate Table) (q : Queue) (limit n : ℕ)
      → backfill_target item ≡ some (policy q)
      → AfterAdmit q limit n a
      → AfterStep q limit n w
          (submit_admitted db s poll_seconds ctx threshold head item block args w a g)
  unfolding submit_admitted AfterAdmit AfterStep
  submit_admitted-AfterStep ctx threshold head item block args w value_error g q limit n e k = tt
  submit_admitted-AfterStep ctx threshold head item block args w (valid (g', waiting)) g q limit n e
        k =
      tt
  submit_admitted-AfterStep ctx threshold head item block args w (valid (g', refused)) g q limit n e
        k =
      (k.0, refl)
  submit_admitted-AfterStep ctx threshold head item block args w (valid (g', admitted)) g q limit n
        e k =
      settle-AfterStep item q limit n g' w _ _ block args e k.0 (k.1 refl)
        (execute_sends_one db ctx w item block args _ _ _)

  submit_matching-AfterStep :
      (ctx : Context) (threshold head : ℕ) (item : RegistryItem) (block : ℕ) (args : String)
      (st : State db s poll_seconds) (answer : Option Bool) (q : Queue) (limit n : ℕ)
      → backfill_target item ≡ some (policy q)
      → q.throttle ≡ some limit
      → Kept q limit n st.1
      → AfterStep q limit n st.0
          (submit_matching db s poll_seconds ctx threshold head item block args st answer)
  unfolding submit_matching AfterStep
  submit_matching-AfterStep ctx threshold head item block args st none q limit n e h k = tt
  submit_matching-AfterStep ctx threshold head item block args st (some false) q limit n e h k =
      (k, refl)
  submit_matching-AfterStep ctx threshold head item block args (w, g) (some true) q limit n e h k =
      submit_admitted-AfterStep ctx threshold head item block args w _ g q limit n e (
        subst (λ t. AfterAdmit q limit n (admit db s poll_seconds ctx.now w.0 g t)) (sym e)
          (admit-Kept db s poll_seconds ctx.now w.0 g q limit n h k))

  submit_block-AfterStep :
      (ctx : Context) (threshold : ℕ) (executed : ℕ → Bool) (head : ℕ) (item : RegistryItem)
      (block : ℕ) (args : String) (st : State db s poll_seconds) (q : Queue) (limit n : ℕ)
      → backfill_target item ≡ some (policy q)
      → q.throttle ≡ some limit
      → Kept q limit n st.1
      → AfterStep q limit n st.0
          (submit_block db s poll_seconds ctx threshold executed head item block args st)
  unfolding submit_block AfterStep
  submit_block-AfterStep ctx threshold executed head item block args st q limit n e h k =
      elim (Bool-cases (executed block)) [
        | inl y ↦ rw y (k, refl)
        | inr z ↦
            rw z (submit_matching-AfterStep ctx threshold head item block args st _ q limit n e h k)
      ]

  -- A pass, or the rest of one, that had submitted `n` in the world `before`.
  AfterPass : Queue → ℕ → ℕ → World db → State db s poll_seconds × Pass → Type 0
  AfterPass q limit n before (st, aborted) = Unit {0}
  AfterPass q limit n before (st, submitted m) =
      Kept q limit m st.1 × (length st.0.1 + n ≡ length before.1 + m)

  -- A pass over the rest, counted from before the first submission.
  moved :
      (q : Queue) (limit n : ℕ) (before : World db) (b : Bool) (st : State db s poll_seconds)
      (x : State db s poll_seconds × Pass)
      → length st.0.1 ≡ one_more b (length before.1)
      → AfterPass q limit (one_more b n) st.0 x
      → AfterPass q limit n before x
  unfolding AfterPass
  moved q limit n before b st (st', aborted) e a = tt
  moved q limit n before true st (st', submitted m) e a = (a.0, omega (arith, e, a.1))
  moved q limit n before false st (st', submitted m) e a = (a.0, omega (arith, e, a.1))

  joined :
      (q : Queue) (limit n k : ℕ) (before : World db) (st : State db s poll_seconds)
      (x : State db s poll_seconds × Pass)
      → length st.0.1 + n ≡ length before.1 + k
      → AfterPass q limit k st.0 x
      → AfterPass q limit n before x
  unfolding AfterPass
  joined q limit n k before st (st', aborted) e a = tt
  joined q limit n k before st (st', submitted m) e a = (a.0, omega (arith, e, a.1))

  fresh_gate :
      (q : Queue) (limit : ℕ)
      → Kept q limit 0 {T = Table} (record { wait = false; free = []; looks = [] })
  unfolding Room lookup
  fresh_gate q limit = record { no_wait = refl; room = refl }

  within : (q : Queue) (limit n : ℕ) (o : Option ℤ) → Room limit o n → n ≤ limit
  unfolding Room
  within q limit n none r = omega (arith, r)
  within q limit n (some (plus k)) r = omega (arith, r)
  within q limit n (some (minus k)) r = absurd r

  concluded :
      (q : Queue) (limit : ℕ) (w : World db) (x : State db s poll_seconds × Pass) (m : ℕ)
      → x.1 ≡ submitted m
      → AfterPass q limit 0 w x
      → (length x.0.0.1 ≡ length w.1 + m) × (m ≤ limit)
  unfolding AfterPass
  concluded q limit w (st, aborted) m p a = cc
  concluded q limit w (st, submitted k) m p a =
      let e : k ≡ m = cc in rw (← e) (omega (arith, a.1), within q limit k _ a.0.room)

  after_block-AfterPass :
      (q : Queue) (limit n : ℕ) (before : World db) (x : State db s poll_seconds × Result Bool)
      (rest : ℕ → State db s poll_seconds → State db s poll_seconds × Pass)
      → AfterStep q limit n before x
      → ((m : ℕ) (st : State db s poll_seconds)
          → Kept q limit m st.1
          → AfterPass q limit m st.0 (rest m st))
      → AfterPass q limit n before (after_block x n rest)
  unfolding after_block AfterStep AfterPass
  after_block-AfterPass q limit n before (st, raises) rest a k = tt
  after_block-AfterPass q limit n before (st, returned b) rest a k =
      moved q limit n before b st (rest (one_more b n) st) a.1 (k (one_more b n) st a.0)

  after_pass-AfterPass :
      (q : Queue) (limit n : ℕ) (before : World db) (x : State db s poll_seconds × Pass)
      (rest : ℕ → State db s poll_seconds → State db s poll_seconds × Pass)
      → AfterPass q limit n before x
      → ((m : ℕ) (st : State db s poll_seconds)
          → Kept q limit m st.1
          → AfterPass q limit m st.0 (rest m st))
      → AfterPass q limit n before (after_pass x rest)
  unfolding after_pass AfterPass
  after_pass-AfterPass q limit n before (st, aborted) rest a k = tt
  after_pass-AfterPass q limit n before (st, submitted m) rest a k =
      joined q limit n m before st (rest m st) a.1 (k m st a.0)

  submit_blocks-AfterPass :
      (ctx : Context) (threshold : ℕ) (executed : ℕ → Bool) (head : ℕ) (item : RegistryItem)
      (args : String) (blocks : List ℕ) (n : ℕ) (st : State db s poll_seconds) (q : Queue)
      (limit : ℕ)
      → backfill_target item ≡ some (policy q)
      → q.throttle ≡ some limit
      → Kept q limit n st.1
      → AfterPass q limit n st.0
          (submit_blocks db s poll_seconds ctx threshold executed head item args blocks n st)
  unfolding submit_blocks AfterPass
  submit_blocks-AfterPass ctx threshold executed head item args [] n st q limit e h k = (k, refl)
  submit_blocks-AfterPass ctx threshold executed head item args (block ∷ rest) n st q limit e h k =
      after_block-AfterPass q limit n st.0 _ _
        (submit_block-AfterStep ctx threshold executed head item block args st q limit n e h k)
        (λ m st' k'.
          submit_blocks-AfterPass ctx threshold executed head item args rest m st' q limit e h k')

  submit_args-AfterPass :
      (ctx : Context) (threshold head : ℕ) (item : RegistryItem) (from to : ℕ)
      (arg_sets : List String) (n : ℕ) (st : State db s poll_seconds) (q : Queue) (limit : ℕ)
      → backfill_target item ≡ some (policy q)
      → q.throttle ≡ some limit
      → Kept q limit n st.1
      → AfterPass q limit n st.0
          (submit_args db s poll_seconds ctx threshold head item from to arg_sets n st)
  unfolding submit_args AfterPass
  submit_args-AfterPass ctx threshold head item from to [] n st q limit e h k = (k, refl)
  submit_args-AfterPass ctx threshold head item from to (args ∷ rest) n st q limit e h k =
      after_pass-AfterPass q limit n st.0 _ _
        (submit_blocks-AfterPass ctx threshold _ head item args (block_range from to) n st q limit e
          h k)
        (λ m st' k'.
          submit_args-AfterPass ctx threshold head item from to rest m st' q limit e h k')

  -- A lookback pass over a throttled queue that ends with a count sent exactly that many messages,
  -- over all argument sets, and no more than the throttle.
  pub process_item_range_bounded :
      (ctx : Context) (threshold : ℕ) (item : RegistryItem) (from to head : ℕ) (w : World db)
      (q : Queue) (limit m : ℕ)
      → backfill_target item ≡ some (policy q)
      → q.throttle ≡ some limit
      → (process_item_range db s poll_seconds ctx threshold item from to head w).1 ≡ submitted m
      → (length (process_item_range db s poll_seconds ctx threshold item from to head w).0.0.1
          ≡ length w.1 + m)
        × (m ≤ limit)
  unfolding process_item_range
  process_item_range_bounded ctx threshold item from to head w q limit m e h p =
      concluded q limit w _ m p (
        submit_args-AfterPass ctx threshold head item from to (get_execution_args item) 0
          (w, record { wait = false; free = []; looks = [] }) q limit e h (fresh_gate q limit))
