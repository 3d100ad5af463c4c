-- ===== src/Scheduler/Loop/Progress.antt =====
-- services/scheduler.py: the cursors of the heads over the loop.
use abstract_block_dumper.Prelude.{
  ℕ, ◌≡◌, refl, sym, subst, Bool, true, false, ◌||◌, Option, none, some, List, ◌∷◌, [], leb,
  is_some, arith, Bool-cases, Option-cases, inl, inr,
}
use abstract_block_dumper.Attempt.Database.{Database}
use abstract_block_dumper.Dispatch.{Context, World}
use abstract_block_dumper.Registry.Items.{RegistryItem, BlockSource, latest, finalized}
use abstract_block_dumper.Scheduler.{
  Heads, head_of, put_head, Scheduler, ensure_starting_block, advance, poll_block_source, sweep_due,
}
use abstract_block_dumper.Scheduler.Laws.{
  IsNotBehind, IsNotBehind-refl, IsNotBehind-trans, poll-IsNotBehind,
}
use abstract_block_dumper.Scheduler.Loop.{
  same_source, Groups, Turn, LoopOptions, poll_groups, maybe_reconcile, run_turn, run_turns,
}
use abstract_block_dumper.Settings.{Settings}

pub head_of-put_head :
    (h : Heads) (source : BlockSource) (n : ℕ) → head_of (put_head h source n) source ≡ some n
head_of-put_head h latest n = refl
head_of-put_head h finalized n = refl

pub same_source_sound : (a b : BlockSource) → same_source a b ≡ true → a ≡ b
same_source_sound latest latest e = refl
same_source_sound finalized finalized e = refl
same_source_sound latest finalized e = cc
same_source_sound finalized latest e = cc

-- The head has tasks, so that each turn polls it.
unfoldable pub is_polled : BlockSource → Groups → Bool
is_polled source [] = false
is_polled source ((key, items) ∷ rest) =
    let later = is_polled source rest in same_source key source || later

-- The starting block of the head is known, or the resolver gives one.
abbrev pub is_resolved : Option ℕ → Option ℕ → Bool
is_resolved last resolved = is_some last || is_some resolved

ensured :
    (st : Scheduler) (source : BlockSource) (resolved : Option ℕ)
    → is_resolved (head_of st.last_processed_blocks source) resolved ≡ true
    → ((ensure_starting_block st source resolved).1 ≡ true)
      × (k : ℕ) × (head_of (ensure_starting_block st source resolved).0.last_processed_blocks source
          ≡ some k)
unfolding ensure_starting_block
ensured st source resolved h = elim (Option-cases (head_of st.last_processed_blocks source)) [
  | inr (n, e) ↦ rw (ensure_starting_block, e) (refl, n, e)
  | inl e ↦ elim (Option-cases resolved) [
    | inl f ↦ absurd (let no : ⊥ = ground (arith, h) in no)
    | inr (n, f) ↦
        rw (ensure_starting_block, e, f)
          (refl, n, head_of-put_head st.last_processed_blocks source n)
  ]
]

module _ (db : Database) (s : Settings) where
  advance_reaches :
      (ctx : Context) (enabled : Bool) (items : List RegistryItem) (st : Scheduler)
      (source : BlockSource) (current k : ℕ) (w : World db)
      → head_of st.last_processed_blocks source ≡ some k
      → IsNotBehind (some current) (
          head_of
            (advance db s ctx enabled items st source current (some k) w).0.last_processed_blocks
            source)
  unfolding advance
  advance_reaches ctx enabled items st source current k w e = elim (Bool-cases (leb current k)) [
    | inl y ↦ rw y (rw e (ground (arith, y)))
    | inr n ↦ rw n (rw (head_of-put_head st.last_processed_blocks source current) (omega arith))
  ]

  poll_source_reaches :
      (ctx : Context) (enabled : Bool) (items : List RegistryItem) (source : BlockSource)
      (resolved : Option ℕ) (n : ℕ) (st : Scheduler) (w : World db)
      → is_resolved (head_of st.last_processed_blocks source) resolved ≡ true
      → IsNotBehind (some n) (
          head_of
            (poll_block_source db s ctx enabled items source resolved
              (some n)
              (st, w)).0.last_processed_blocks
            source)
  unfolding poll_block_source
  poll_source_reaches ctx enabled items source resolved n st w h =
      let (known, k, e) = ensured st source resolved h in
      rw known (
        subst
          (λ o. IsNotBehind (some n) (
            head_of
              (advance db s ctx enabled items
                (record (ensure_starting_block st source resolved).0 {
                  observed_blocks =
                      put_head (ensure_starting_block st source resolved).0.observed_blocks source
                        n;
                })
                source n o w).0.last_processed_blocks
              source))
          (sym e) (advance_reaches ctx enabled items _ source n k w e))

module _ (db : Database) (s : Settings) (options : LoopOptions) where
  poll_groups-IsNotBehind :
      (turn : Turn) (groups : Groups) (other : BlockSource) (st : Scheduler) (w : World db)
      → IsNotBehind
          (head_of st.last_processed_blocks other)
          (head_of (poll_groups db s options turn groups (st, w)).0.last_processed_blocks other)
  unfolding poll_groups
  poll_groups-IsNotBehind turn [] other st w =
      IsNotBehind-refl (head_of st.last_processed_blocks other)
  poll_groups-IsNotBehind turn ((source, items) ∷ rest) other st w =
      let first =
        poll_block_source db s turn.context options.lookback_enabled items source
          (turn.starting_block source) (turn.head source) (st, w) in
      IsNotBehind-trans _ (head_of first.0.last_processed_blocks other) _
        (poll-IsNotBehind db s turn.context options.lookback_enabled items source other
          (turn.starting_block source) (turn.head source) st w)
        (poll_groups-IsNotBehind turn rest other first.0 first.1)

  -- The sweep leaves the cursors alone.
  pub maybe_reconcile_cursors :
      (turn : Turn) (functions : List RegistryItem) (st : Scheduler) (w : World db)
      (last : Option ℕ)
      → (maybe_reconcile db s options turn functions ((st, w), last)).0.0 ≡ st
  unfolding maybe_reconcile
  maybe_reconcile_cursors turn functions st w last =
      elim (Bool-cases (sweep_due options.stale_task_sweep_interval last turn.monotonic)) [
        | inl y ↦ rw y refl
        | inr n ↦ rw n refl
      ]

  run_turn-IsNotBehind :
      (functions : List RegistryItem) (groups : Groups) (turn : Turn) (other : BlockSource)
      (st : Scheduler) (w : World db) (last : Option ℕ)
      → IsNotBehind (head_of st.last_processed_blocks other) (
          head_of
            (run_turn db s options functions groups turn ((st, w), last)).0.0.last_processed_blocks
            other)
  unfolding run_turn
  run_turn-IsNotBehind functions groups turn other st w last =
      let (st', w') = poll_groups db s options turn groups (st, w) in
      rw (maybe_reconcile_cursors turn functions st' w' last)
        (poll_groups-IsNotBehind turn groups other st w)

  run_turns-IsNotBehind :
      (functions : List RegistryItem) (groups : Groups) (turns : List Turn) (other : BlockSource)
      (st : Scheduler) (w : World db) (last : Option ℕ)
      → IsNotBehind (head_of st.last_processed_blocks other) (
          head_of
            (run_turns db s options functions groups turns
              ((st, w), last)).0.0.last_processed_blocks
            other)
  unfolding run_turns
  run_turns-IsNotBehind functions groups [] other st w last =
      IsNotBehind-refl (head_of st.last_processed_blocks other)
  run_turns-IsNotBehind functions groups (turn ∷ rest) other st w last =
      let ((st', w'), last') = run_turn db s options functions groups turn ((st, w), last) in
      IsNotBehind-trans _ (head_of st'.last_processed_blocks other) _
        (run_turn-IsNotBehind functions groups turn other st w last)
        (run_turns-IsNotBehind functions groups rest other st' w' last')

  is_resolved_later :
      (before after resolved : Option ℕ)
      → IsNotBehind before after
      → is_resolved before resolved ≡ true
      → is_resolved after resolved ≡ true
  is_resolved_later none none resolved k h = h
  is_resolved_later none (some n) resolved k h = refl
  is_resolved_later (some n) none resolved k h = absurd k
  is_resolved_later (some n) (some m) resolved k h = refl

  -- The polls of a turn in which a read of the head gives block `n`.
  poll_groups_reach :
      (turn : Turn) (groups : Groups) (source : BlockSource) (n : ℕ) (st : Scheduler) (w : World db)
      → is_polled source groups ≡ true
      → is_resolved (head_of st.last_processed_blocks source) (turn.starting_block source) ≡ true
      → turn.head source ≡ some n
      → IsNotBehind
          (some n)
          (head_of (poll_groups db s options turn groups (st, w)).0.last_processed_blocks source)
  unfolding poll_groups is_polled
  poll_groups_reach turn [] source n st w p h e = cc
  poll_groups_reach turn ((key, items) ∷ rest) source n st w p h e =
      let (st', w') =
        poll_block_source db s turn.context options.lookback_enabled items key
          (turn.starting_block key) (turn.head key) (st, w) in
      elim (Bool-cases (same_source key source)) [
        | inl y ↦
            IsNotBehind-trans (some n) (head_of st'.last_processed_blocks source) _
              (subst
                (λ k. IsNotBehind (some n) (
                  head_of
                    (poll_block_source db s turn.context options.lookback_enabled items k
                      (turn.starting_block k) (turn.head k) (st, w)).0.last_processed_blocks
                    source))
                (sym (same_source_sound key source y))
                (subst
                  (λ o. IsNotBehind (some n) (
                    head_of
                      (poll_block_source db s turn.context options.lookback_enabled items source
                        (turn.starting_block source) o (st, w)).0.last_processed_blocks
                      source))
                  (sym e)
                  (poll_source_reaches db s turn.context options.lookback_enabled items source
                    (turn.starting_block source) n st w h)))
              (poll_groups-IsNotBehind turn rest source st' w')
        | inr differs ↦
            poll_groups_reach turn rest source n st' w' (ground (arith, p, differs))
              (is_resolved_later (head_of st.last_processed_blocks source)
                (head_of st'.last_processed_blocks source) (turn.starting_block source)
                (poll-IsNotBehind db s turn.context options.lookback_enabled items key source
                  (turn.starting_block key) (turn.head key) st w)
                h)
              e
      ]

  -- After a turn in which a read of a head gives block `n`, and in every later turn, whatever the
  -- other heads, the chain and the queues do, the head's last processed block is at least `n`, if
  -- the head has tasks and its starting block is known or can be resolved in that turn.
  pub turn_reaches_head :
      (functions : List RegistryItem) (groups : Groups) (turn : Turn) (later : List Turn)
      (source : BlockSource) (n : ℕ) (st : Scheduler) (w : World db) (last : Option ℕ)
      → is_polled source groups ≡ true
      → is_resolved (head_of st.last_processed_blocks source) (turn.starting_block source) ≡ true
      → turn.head source ≡ some n
      → IsNotBehind (some n) (
          head_of
            (run_turns db s options functions groups
              (turn ∷ later)
              ((st, w), last)).0.0.last_processed_blocks
            source)
  unfolding run_turns run_turn
  turn_reaches_head functions groups turn later source n st w last p h e =
      let ((st', w'), last') = run_turn db s options functions groups turn ((st, w), last) in
      let polled = poll_groups db s options turn groups (st, w) in
      IsNotBehind-trans (some n) (head_of st'.last_processed_blocks source) _
        (rw (maybe_reconcile_cursors turn functions polled.0 polled.1 last)
          (poll_groups_reach turn groups source n st w p h e))
        (run_turns-IsNotBehind functions groups later source st' w' last')
