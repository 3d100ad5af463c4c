-- ===== src/BackfillScheduler/Sends.antt =====
-- _internal/services/backfill_scheduler.py: one submission of a backfill sends at most one message.
use abstract_block_dumper.Prelude.{
  ℕ, suc, ◌+◌, ◌≤◌, ◌≡◌, refl, String, Bool, true, false, not, ◌&&◌, Option, none, some, length,
  if◌then◌else◌, Bool-cases, inl, inr, arith,
}
use abstract_block_dumper.Attempt.{TaskAttempt, is_pending}
use abstract_block_dumper.Attempt.Database.{Database}
use abstract_block_dumper.Backfill.{beyond_archive}
use abstract_block_dumper.Backfill.Window.{
  queue_name, submit_block as submit_window_block, submit_matching, count_submitted,
}
use abstract_block_dumper.BackfillScheduler.{Ending}
use abstract_block_dumper.BackfillScheduler.DryRun.{matches}
use abstract_block_dumper.BackfillScheduler.DryRun.Counts.{one_for}
use abstract_block_dumper.BackfillScheduler.Moments.{Progress, resume, resume_at}
use abstract_block_dumper.BlockTask.Executor.{execute as execute_named, submit_pending}
use abstract_block_dumper.Dispatch.{Message, Context, Sending, sent, not_sent, raised, World, post}
use abstract_block_dumper.Dispatch.Counts.{one_if, length-snoc}
use abstract_block_dumper.Registry.Items.{RegistryItem, match_condition}
use abstract_block_dumper.Throttle.{Gate, Look}

abbrev pub messages : {T : Type 0} → Progress T → ℕ
messages p = length p.world.1

pub one_if-le : (b : Bool) (n : ℕ) → one_if b n ≤ suc n
one_if-le true n = omega arith
one_if-le false n = omega arith

module _ {T : Type 0} where
  pub if-le :
      (b : Bool) (p q : Progress T) (k : ℕ)
      → messages p ≤ k
      → messages q ≤ k
      → messages (if b then p else q) ≤ k
  if-le true p q k h l = h
  if-le false p q k h l = l

  pub ending-le :
      (a b c : Bool) (x y z w : Progress T × ℕ × Ending) (k : ℕ)
      → messages x.0 ≤ k
      → messages y.0 ≤ k
      → messages z.0 ≤ k
      → messages w.0 ≤ k
      → messages (if a then x else if b then y else if c then z else w).0 ≤ k
  ending-le true b c x y z w k h i j l = h
  ending-le false true c x y z w k h i j l = i
  ending-le false false true x y z w k h i j l = j
  ending-le false false false x y z w k h i j l = l

  resume_at-messages :
      (p : Progress T) (g : Gate T) (o : Option (Look T)) → messages (resume_at p g o) ≡ messages p
  resume_at-messages p g none = refl
  resume_at-messages p g (some look) = refl

  pub resume-messages : (p : Progress T) (g : Gate T) → messages (resume p g) ≡ messages p
  unfolding resume
  resume-messages p g = resume_at-messages p g _

module _ (db : Database) where
  post-le :
      (ctx : Context) (w : World db) (m : Message) → length (post db ctx w m).0.1 ≤ suc (length w.1)
  post-le ctx w m = elim (Bool-cases (ctx.accepts m)) [
    | inl y ↦ rw y (omega (arith, length-snoc w.1 m))
    | inr n ↦ rw n (omega arith)
  ]

  submit_pending-le :
      (ctx : Context) (w : World db) (id : ℕ) (created : Bool) (item : RegistryItem) (block : ℕ)
      (args : String) (use_archive : Bool) (queue : Option String) (o : Option TaskAttempt)
      → length (submit_pending db ctx w id created item block args use_archive queue o).0.1
        ≤ suc (length w.1)
  unfolding submit_pending
  submit_pending-le ctx w id created item block args use_archive queue none = omega arith
  submit_pending-le ctx w id created item block args use_archive queue (some r) =
      elim (Bool-cases (not created && not (is_pending r.status))) [
        | inl y ↦ rw y (omega arith)
        | inr n ↦ rw n (post-le ctx _ _)
      ]

  execute_named-le :
      (ctx : Context) (w : World db) (item : RegistryItem) (block : ℕ) (args : String)
      (use_archive : Bool) (queue : Option String)
      → length (execute_named db ctx w item block args use_archive queue).0.1 ≤ suc (length w.1)
  unfolding execute_named
  execute_named-le ctx w item block args use_archive queue =
      submit_pending-le ctx (_, w.1) _ _ item block args use_archive queue _

  count_submitted-messages : (x : World db × Sending) → (count_submitted db x).0.1 ≡ x.0.1
  unfolding count_submitted
  count_submitted-messages (w, sent) = refl
  count_submitted-messages (w, not_sent) = refl
  count_submitted-messages (w, raised) = refl

  submit_matching-le :
      (ctx : Context) (threshold head : ℕ) (item : RegistryItem) (block : ℕ) (args : String)
      (w : World db) (answer : Option Bool)
      → length (submit_matching db ctx threshold head item block args w answer).0.1
        ≤ length w.1 + one_for (matches answer)
  unfolding submit_matching
  submit_matching-le ctx threshold head item block args w none = omega arith
  submit_matching-le ctx threshold head item block args w (some false) = omega arith
  submit_matching-le ctx threshold head item block args w (some true) =
      rw (count_submitted-messages (execute_named db ctx w item block args _ _)) (
        omega (
          arith,
          execute_named-le ctx w item block args (beyond_archive threshold head block)
              (queue_name item.backfill_queue),
        ))

  pub window-le :
      (ctx : Context) (threshold : ℕ) (executed : ℕ → Bool) (head : ℕ) (item : RegistryItem)
      (block : ℕ) (args : String) (w : World db)
      → length (submit_window_block db ctx threshold executed head item block args w).0.1
        ≤ length w.1 + one_for (not (executed block) && matches (match_condition item block args))
  unfolding submit_window_block
  window-le ctx threshold executed head item block args w = elim (Bool-cases (executed block)) [
    | inl y ↦ rw y (omega arith)
    | inr n ↦ rw n (submit_matching-le ctx threshold head item block args w _)
  ]
