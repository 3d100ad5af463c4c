-- ===== src/Backfill/Skips.antt =====
-- _internal/services/queue_backfiller.py: the blocks that a pass leaves out.
use abstract_block_dumper.Prelude.{
  ℕ, suc, ◌≤◌, ◌≡◌, refl, String, Bool, true, false, ◌&&◌, ◌||◌, some, ◌==◌, eq_iff, subst,
  Bool-cases, inl, inr, arith, returned,
}
use abstract_block_dumper.Numeric.{Value}
use abstract_block_dumper.Attempt.{TaskAttempt, is_pending, is_running, is_success}
use abstract_block_dumper.Attempt.Database.{Database, holds}
use abstract_block_dumper.Backfill.{skip_blocks}
use abstract_block_dumper.Backfill.Queued.{State, submit_block}
use abstract_block_dumper.BlockTask.{in_range, executed_block_numbers, inflight_block_numbers}
use abstract_block_dumper.Dispatch.{Context}
use abstract_block_dumper.Registry.Items.{RegistryItem}
use abstract_block_dumper.Settings.{Settings}

-- The attempt of a block, task and argument set.
pub record IsAttemptOf (r : TaskAttempt) (block : ℕ) (path args : String) : Type 0 where
  pub same_block : r.block_number ≡ block
  pub same_path : r.executable_path ≡ path
  pub same_args : r.args_json ≡ args

or_true : (b : Bool) → (b || true) ≡ true
or_true true = refl
or_true false = refl

-- Its row is in the range.
attempt_in_range :
    (test : TaskAttempt → Bool) (r : TaskAttempt) (block from to : ℕ) (path args : String)
    → IsAttemptOf r block path args
    → from ≤ block
    → block ≤ to
    → test r ≡ true
    → (in_range test path args from (suc to) r && block == r.block_number) ≡ true
attempt_in_range test r block from to path args a l u h = ground (
  arith,
  (eq_iff r.executable_path path).1 a.same_path,
  (eq_iff r.args_json args).1 a.same_args,
  a.same_block,
  h,
)

module _ (db : Database) where
  open db use {Table, get, count, count_none}

  -- A query that selects an existing row does not count 0.
  count_positive :
      (t : Table) (p : TaskAttempt → Bool) (i : ℕ) (r : TaskAttempt)
      → get t i ≡ some r
      → p r ≡ true
      → (count t p == 0) ≡ false
  count_positive t p i r g h = elim (Bool-cases (count t p == 0)) [
    | inr n ↦ n
    | inl y ↦
        let z : count t p ≡ 0 = ground arith in
        cc (h, subst (λ o. holds p o ≡ false) g (count_none t p z i))
  ]

  skip_blocks_of :
      (t : Table) (item : RegistryItem) (args : String) (from to block i : ℕ) (r : TaskAttempt)
      → get t i ≡ some r
      → IsAttemptOf r block item.executable_path args
      → from ≤ block
      → block ≤ to
      → (is_success r.status || is_pending r.status || is_running r.status) ≡ true
      → skip_blocks db t item args from to block ≡ true
  unfolding executed_block_numbers inflight_block_numbers
  skip_blocks_of t item args from to block i r g a l u h = elim (Bool-cases (is_success r.status)) [
    | inl y ↦ rw (executed_counts y) refl
    | inr n ↦ rw (inflight_counts (rw n at h)) (or_true _)
  ]
    where
      executed_counts :
          is_success r.status ≡ true
          → executed_block_numbers db t item.executable_path args from (suc to) block ≡ true
      executed_counts y =
          rw
            (count_positive t
              (λ q.
                in_range (λ q. is_success q.status) item.executable_path args from (suc to) q
                && block == q.block_number)
              i r g
              (attempt_in_range (λ q. is_success q.status) r block from to item.executable_path args
                a l u y))
            refl

      inflight_counts :
          (is_pending r.status || is_running r.status) ≡ true
          → inflight_block_numbers db t item.executable_path args from (suc to) block ≡ true
      inflight_counts y =
          rw
            (count_positive t
              (λ q.
                in_range (λ q. is_pending q.status || is_running q.status) item.executable_path args
                  from (suc to) q
                && block == q.block_number)
              i r g
              (attempt_in_range (λ q. is_pending q.status || is_running q.status) r block from to
                item.executable_path args a l u y))
            refl

  -- A pass over a range leaves out each block of the range whose attempt had succeeded, was PENDING or
  -- was RUNNING when the pass read the table: nothing is sent, written or admitted for it.
  pub submit_block_skips :
      (s : Settings) (poll_seconds : Value) (ctx : Context) (threshold head : ℕ)
      (item : RegistryItem) (args : String) (st : State db s poll_seconds) (t : Table)
      (from to block i : ℕ) (r : TaskAttempt)
      → get t i ≡ some r
      → IsAttemptOf r block item.executable_path args
      → from ≤ block
      → block ≤ to
      → (is_success r.status || is_pending r.status || is_running r.status) ≡ true
      → submit_block db s poll_seconds ctx threshold
          (skip_blocks db t item args from to)
          head
          item
          block
          args
          st
        ≡ (st, returned false)
  unfolding submit_block
  submit_block_skips s poll_seconds ctx threshold head item args st t from to block i r g a l u h =
      rw (skip_blocks_of t item args from to block i r g a l u h) refl
