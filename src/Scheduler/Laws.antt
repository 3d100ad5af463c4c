-- ===== src/Scheduler/Laws.antt =====
-- services/scheduler.py: the cursor of a chain head, the lookback window and the sweep's interval.
use abstract_block_dumper.Prelude.{
  ℕ, zero, suc, ◌+◌, ◌-◌, ◌≤◌, ◌<◌, ◌≡◌, refl, Bool, true, Option, none, some, List, ◌∷◌, [], leb,
  ltb, arith, All, length, Bool-cases, Option-cases, inl, inr, ap,
}
use abstract_block_dumper.Attempt.Database.{Database}
use abstract_block_dumper.Backfill.{blocks_from, block_range}
use abstract_block_dumper.Dispatch.{Context, World}
use abstract_block_dumper.Registry.Items.{RegistryItem, BlockSource, latest, finalized}
use abstract_block_dumper.Settings.{Settings}
use abstract_block_dumper.Scheduler.{
  Heads, head_of, put_head, Scheduler, ensure_starting_block, sweep_due, sweep_times, advance,
  poll_block_source,
}

-- The entry did not go back.
abbrev pub IsNotBehind : Option ℕ → Option ℕ → Type 0
IsNotBehind none after = Unit
IsNotBehind (some n) none = ⊥
IsNotBehind (some n) (some m) = n ≤ m

pub IsNotBehind-refl : (o : Option ℕ) → IsNotBehind o o
IsNotBehind-refl none = tt
IsNotBehind-refl (some n) = omega arith

-- An entry that is put ahead of the old one, or where there was none.
put_head-IsNotBehind :
    (h : Heads) (source other : BlockSource) (n : ℕ)
    → IsNotBehind (head_of h source) (some n)
    → IsNotBehind (head_of h other) (head_of (put_head h source n) other)
put_head-IsNotBehind h latest latest n k = k
put_head-IsNotBehind h latest finalized n k = IsNotBehind-refl h.finalized_block
put_head-IsNotBehind h finalized latest n k = IsNotBehind-refl h.latest_block
put_head-IsNotBehind h finalized finalized n k = k

pub IsNotBehind-trans : (a b c : Option ℕ) → IsNotBehind a b → IsNotBehind b c → IsNotBehind a c
IsNotBehind-trans none b c p q = tt
IsNotBehind-trans (some n) none c p q = absurd p
IsNotBehind-trans (some n) (some m) none p q = absurd q
IsNotBehind-trans (some n) (some m) (some k) p q = omega (arith, p, q)

ensure-IsNotBehind :
    (st : Scheduler) (source other : BlockSource) (resolved : Option ℕ)
    → IsNotBehind
        (head_of st.last_processed_blocks other)
        (head_of (ensure_starting_block st source resolved).0.last_processed_blocks other)
unfolding ensure_starting_block
ensure-IsNotBehind st source other resolved =
    elim (Option-cases (head_of st.last_processed_blocks source)) [
      | inr (n, e) ↦
          rw (ensure_starting_block, e) (IsNotBehind-refl (head_of st.last_processed_blocks other))
      | inl e ↦ elim (Option-cases resolved) [
        | inl f ↦
            rw (ensure_starting_block, e, f)
              (IsNotBehind-refl (head_of st.last_processed_blocks other))
        | inr (n, f) ↦
            rw (ensure_starting_block, e, f)
              (put_head-IsNotBehind st.last_processed_blocks source other n (rw e tt))
      ]
    ]

module _ (db : Database) (s : Settings) where
  advance-IsNotBehind :
      (ctx : Context) (enabled : Bool) (items : List RegistryItem) (st : Scheduler)
      (source other : BlockSource) (current : ℕ) (last : Option ℕ) (w : World db)
      → head_of st.last_processed_blocks source ≡ last
      → IsNotBehind (head_of st.last_processed_blocks other) (
          head_of
            (advance db s ctx enabled items st source current last w).0.last_processed_blocks
            other)
  unfolding advance
  advance-IsNotBehind ctx enabled items st source other current none w e =
      IsNotBehind-refl (head_of st.last_processed_blocks other)
  advance-IsNotBehind ctx enabled items st source other current (some last) w e =
      elim (Bool-cases (leb current last)) [
        | inl y ↦ rw y (IsNotBehind-refl (head_of st.last_processed_blocks other))
        | inr n ↦ rw n (
            put_head-IsNotBehind st.last_processed_blocks source other current
              (rw e (ground arith)))
      ]

  -- A poll of either head, whatever its read gives, moves no head's last processed block back.
  pub poll-IsNotBehind :
      (ctx : Context) (enabled : Bool) (items : List RegistryItem) (source other : BlockSource)
      (resolved read : Option ℕ) (st : Scheduler) (w : World db)
      → IsNotBehind (head_of st.last_processed_blocks other) (
          head_of
            (poll_block_source db s ctx enabled items source resolved read
              (st, w)).0.last_processed_blocks
            other)
  unfolding poll_block_source
  poll-IsNotBehind ctx enabled items source other resolved none st w =
      ensure-IsNotBehind st source other resolved
  poll-IsNotBehind ctx enabled items source other resolved (some current) st w =
      elim (Bool-cases (ensure_starting_block st source resolved).1) [
        | inr n ↦ rw n (ensure-IsNotBehind st source other resolved)
        | inl y ↦ rw y (
            IsNotBehind-trans _ _ _ (ensure-IsNotBehind st source other resolved)
              (advance-IsNotBehind ctx enabled items _ source other current _ w refl))
      ]

  -- A head that has not moved past its last processed block sends nothing and writes nothing.
  pub poll_idle :
      (ctx : Context) (enabled : Bool) (items : List RegistryItem) (source : BlockSource)
      (resolved : Option ℕ) (current last : ℕ) (st : Scheduler) (w : World db)
      → head_of st.last_processed_blocks source ≡ some last
      → current ≤ last
      → (poll_block_source db s ctx enabled items source resolved (some current) (st, w)).1 ≡ w
  unfolding poll_block_source advance
  poll_idle ctx enabled items source resolved current last st w e h =
      rw (ensure_starting_block, e)
        (rw e (let y : leb current last ≡ true = ground (arith, h) in rw y refl))

-- Each next time is at least `interval` after the one before.
abbrev pub IsSpaced : ℕ → Option ℕ → List ℕ → Type 0
IsSpaced interval last [] = Unit
IsSpaced interval none (now ∷ rest) = IsSpaced interval (some now) rest
IsSpaced interval (some last) (now ∷ rest) =
    (interval ≤ now - last) × IsSpaced interval (some now) rest

-- The sweep runs at most once per interval, at whatever times the loop comes by.
pub sweep_times-IsSpaced :
    (interval : ℕ) (last : Option ℕ) (times : List ℕ)
    → IsSpaced interval last (sweep_times interval last times)
unfolding sweep_times sweep_due
sweep_times-IsSpaced interval last [] = tt
sweep_times-IsSpaced interval none (now ∷ rest) = sweep_times-IsSpaced interval (some now) rest
sweep_times-IsSpaced interval (some last) (now ∷ rest) =
    elim (Bool-cases (ltb (now - last) interval)) [
      | inl y ↦ rw y (sweep_times-IsSpaced interval (some last) rest)
      | inr n ↦ rw n (ground arith, sweep_times-IsSpaced interval (some now) rest)
    ]

blocks_from-bounds :
    (low from n bound : ℕ)
    → low ≤ from
    → from + n ≤ bound
    → All (λ b. (low ≤ b) × (b < bound)) (blocks_from from n)
blocks_from-bounds low from zero bound l h = tt
blocks_from-bounds low from (suc n) bound l h = (
  (l, omega (arith, h)),
  blocks_from-bounds low (suc from) n bound (omega (arith, l)) (omega (arith, h)),
)

length-blocks_from : (from n : ℕ) → length (blocks_from from n) ≡ n
length-blocks_from from zero = refl
length-blocks_from from (suc n) = ap suc (length-blocks_from (suc from) n)

-- The lookback window of a head above 0 has at most `lookback` blocks, and they all lie below the
-- head and at most `lookback` blocks behind it.
pub lookback_window :
    (head lookback : ℕ)
    → 0 < head
    → (length (block_range (head - lookback) (head - 1)) ≤ lookback)
      × All (λ b. (head - lookback ≤ b) × (b < head)) (block_range (head - lookback) (head - 1))
lookback_window head lookback h =
    let e = length-blocks_from (head - lookback) (suc (head - 1) - (head - lookback)) in
    (
      omega (arith, e, h),
      blocks_from-bounds (head - lookback) (head - lookback) (suc (head - 1) - (head - lookback))
          head (omega arith) (omega (arith, h)),
    )
