-- ===== src/Scheduler/Loop/Polls.antt =====
-- services/scheduler.py: what a poll makes of the cursor of its own head, and of another's.
use abstract_block_dumper.Prelude.{
  ℕ, ◌≡◌, refl, sym, ap, ◌∙◌, Bool, true, false, Option, none, some, List, leb, is_some,
  if◌then◌else◌, Bool-cases, Option-cases, inl, inr, arith,
}
use abstract_block_dumper.Attempt.Database.{Database}
use abstract_block_dumper.Dispatch.{Context, World}
use abstract_block_dumper.Registry.Items.{RegistryItem, BlockSource, latest, finalized}
use abstract_block_dumper.Scheduler.{
  Heads, head_of, put_head, Scheduler, ensure_starting_block, advance, poll_block_source,
}
use abstract_block_dumper.Scheduler.Loop.{same_source}
use abstract_block_dumper.Scheduler.Loop.Progress.{head_of-put_head}
use abstract_block_dumper.Settings.{Settings}

-- The last processed block and the observed block of one head.
abbrev pub Cursor : Type 0
Cursor = Option ℕ × Option ℕ

abbrev pub cursor : BlockSource → Scheduler → Cursor
cursor source st = (head_of st.last_processed_blocks source, head_of st.observed_blocks source)

-- What a poll of a head makes of its cursor, from what the resolver and the read of this head give.
abbrev pub resolve : Option ℕ → Option ℕ → Option ℕ
resolve none resolved = resolved
resolve (some n) resolved = some n

-- The read counts only where the starting block is known.
abbrev move : Option ℕ → Option ℕ → Option ℕ → Cursor
move none observed read = (none, observed)
move (some last) observed none = (some last, observed)
move (some last) observed (some current) =
    (some (if leb current last then last else current), some current)

-- One poll of a head, seen from this head alone.
abbrev pub poll_head : Cursor → Option ℕ → Option ℕ → Cursor
poll_head (last, observed) resolved read = move (resolve last resolved) observed read

move_twice :
    (last observed read : Option ℕ)
    → move (move last observed read).0 (move last observed read).1 read ≡ move last observed read
move_twice none observed read = refl
move_twice (some last) observed none = refl
move_twice (some last) observed (some current) = ground arith

move_unread : (last observed : Option ℕ) → move last observed none ≡ (last, observed)
move_unread none observed = refl
move_unread (some last) observed = refl

pub poll_head_twice :
    (c : Cursor) (resolved read : Option ℕ)
    → poll_head (poll_head c resolved read) resolved read ≡ poll_head c resolved read
poll_head_twice (none, observed) none read = refl
poll_head_twice (none, observed) (some n) none = refl
poll_head_twice (none, observed) (some n) (some current) =
    move_twice (some n) observed (some current)
poll_head_twice (some n, observed) resolved none = refl
poll_head_twice (some n, observed) resolved (some current) =
    move_twice (some n) observed (some current)

put_head_other :
    (h : Heads) (source other : BlockSource) (n : ℕ)
    → same_source source other ≡ false
    → head_of (put_head h source n) other ≡ head_of h other
put_head_other h latest finalized n e = refl
put_head_other h finalized latest n e = refl
put_head_other h latest latest n e = cc
put_head_other h finalized finalized n e = cc

pub ensure_own :
    (st : Scheduler) (source : BlockSource) (resolved : Option ℕ) (last : Option ℕ)
    → head_of st.last_processed_blocks source ≡ last
    → (cursor source (ensure_starting_block st source resolved).0
        ≡ (resolve last resolved, head_of st.observed_blocks source))
      × ((ensure_starting_block st source resolved).1 ≡ is_some (resolve last resolved))
unfolding ensure_starting_block
ensure_own st source none none e =
    rw (ensure_starting_block, e) (ap (λ o. (o, head_of st.observed_blocks source)) e, refl)
ensure_own st source (some n) none e =
    rw (ensure_starting_block, e)
      (
        ap (λ o. (o, head_of st.observed_blocks source))
            (head_of-put_head st.last_processed_blocks source n),
        refl,
      )
ensure_own st source resolved (some n) e =
    rw (ensure_starting_block, e) (ap (λ o. (o, head_of st.observed_blocks source)) e, refl)

pub ensure_other :
    (st : Scheduler) (source other : BlockSource) (resolved : Option ℕ)
    → same_source source other ≡ false
    → cursor other (ensure_starting_block st source resolved).0 ≡ cursor other st
unfolding ensure_starting_block
ensure_other st source other resolved d =
    elim (Option-cases (head_of st.last_processed_blocks source)) [
      | inr (n, e) ↦ rw (ensure_starting_block, e) refl
      | inl e ↦ elim (Option-cases resolved) [
        | inl f ↦ rw (ensure_starting_block, e, f) refl
        | inr (n, f) ↦
            rw (ensure_starting_block, e, f)
              (ap (λ o. (o, head_of st.observed_blocks other))
                (put_head_other st.last_processed_blocks source other n d))
      ]
    ]

module _ (db : Database) (s : Settings) where
  advance_own :
      (ctx : Context) (enabled : Bool) (items : List RegistryItem) (st : Scheduler)
      (source : BlockSource) (current k : ℕ) (w : World db)
      → cursor source st ≡ (some k, some current)
      → cursor source (advance db s ctx enabled items st source current (some k) w).0
        ≡ move (some k) none (some current)
  unfolding advance
  advance_own ctx enabled items st source current k w e = elim (Bool-cases (leb current k)) [
    | inl y ↦ rw y e
    | inr n ↦ rw n (
        ap (λ o. (o, head_of st.observed_blocks source))
          (head_of-put_head st.last_processed_blocks source current)
        ∙ ap (λ c. (some current, c.1)) e)
  ]

  advance_other :
      (ctx : Context) (enabled : Bool) (items : List RegistryItem) (st : Scheduler)
      (source other : BlockSource) (current : ℕ) (last : Option ℕ) (w : World db)
      → same_source source other ≡ false
      → cursor other (advance db s ctx enabled items st source current last w).0 ≡ cursor other st
  unfolding advance
  advance_other ctx enabled items st source other current none w d = refl
  advance_other ctx enabled items st source other current (some k) w d =
      elim (Bool-cases (leb current k)) [
        | inl y ↦ rw y refl
        | inr n ↦ rw n (
            ap (λ o. (o, head_of st.observed_blocks other))
              (put_head_other st.last_processed_blocks source other current d))
      ]

  -- The scheduler after a head was read, before it is advanced.
  abbrev observed_at : Scheduler → BlockSource → Option ℕ → ℕ → Scheduler
  observed_at st source resolved current =
      let (st', known) = ensure_starting_block st source resolved in
      record st' { observed_blocks = put_head st'.observed_blocks source current }

  poll_own_read :
      (ctx : Context) (enabled : Bool) (items : List RegistryItem) (source : BlockSource)
      (resolved : Option ℕ) (current : ℕ) (st : Scheduler) (w : World db) (o : Option ℕ)
      → resolve (head_of st.last_processed_blocks source) resolved ≡ o
      → cursor source
          (poll_block_source db s ctx enabled items source resolved (some current) (st, w)).0
        ≡ move o (head_of st.observed_blocks source) (some current)
  unfolding poll_block_source
  poll_own_read ctx enabled items source resolved current st w none e =
      let (own, known) =
        ensure_own st source resolved (head_of st.last_processed_blocks source) refl in
      let unknown : (ensure_starting_block st source resolved).1 ≡ false = known ∙ ap is_some e in
      rw unknown (own ∙ ap (λ o. (o, head_of st.observed_blocks source)) e)
  poll_own_read ctx enabled items source resolved current st w (some k) e =
      let (own, known) =
        ensure_own st source resolved (head_of st.last_processed_blocks source) refl in
      let found : (ensure_starting_block st source resolved).1 ≡ true = known ∙ ap is_some e in
      let at : head_of (ensure_starting_block st source resolved).0.last_processed_blocks source
          ≡ some k =
        ap (λ c. c.0) own ∙ e in
      rw found (
        ap
          (λ o.
            cursor source
              (advance db s ctx enabled items (observed_at st source resolved current) source
                current o w).0)
          at
        ∙ advance_own ctx enabled items (observed_at st source resolved current) source current k w
            (ap
                (λ o. (
                  o,
                  head_of
                      (put_head (ensure_starting_block st source resolved).0.observed_blocks source
                        current)
                      source,
                ))
                at
              ∙ ap (λ o. (some k, o)) (head_of-put_head _ source current)))

  pub poll_own :
      (ctx : Context) (enabled : Bool) (items : List RegistryItem) (source : BlockSource)
      (resolved read : Option ℕ) (st : Scheduler) (w : World db)
      → cursor source (poll_block_source db s ctx enabled items source resolved read (st, w)).0
        ≡ poll_head (cursor source st) resolved read
  unfolding poll_block_source
  poll_own ctx enabled items source resolved none st w =
      (ensure_own st source resolved (head_of st.last_processed_blocks source) refl).0
      ∙ sym (move_unread (resolve (head_of st.last_processed_blocks source) resolved) _)
  poll_own ctx enabled items source resolved (some current) st w =
      poll_own_read ctx enabled items source resolved current st w _ refl

  pub poll_other :
      (ctx : Context) (enabled : Bool) (items : List RegistryItem) (source other : BlockSource)
      (resolved read : Option ℕ) (st : Scheduler) (w : World db)
      → same_source source other ≡ false
      → cursor other (poll_block_source db s ctx enabled items source resolved read (st, w)).0
        ≡ cursor other st
  unfolding poll_block_source
  poll_other ctx enabled items source other resolved none st w d =
      ensure_other st source other resolved d
  poll_other ctx enabled items source other resolved (some current) st w d =
      elim (Bool-cases (ensure_starting_block st source resolved).1) [
        | inr n ↦ rw n (ensure_other st source other resolved d)
        | inl y ↦ rw y (
            advance_other ctx enabled items (observed_at st source resolved current) source other
              current _ w d
            ∙ ap
                (λ o. (
                  head_of (ensure_starting_block st source resolved).0.last_processed_blocks other,
                  o,
                ))
                (put_head_other _ source other current d)
            ∙ ensure_other st source other resolved d)
      ]
