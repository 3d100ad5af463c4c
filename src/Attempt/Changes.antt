-- ===== src/Attempt/Changes.antt =====
-- What one event does to one row, and the induction over traces.
use abstract_block_dumper.Prelude.{
  ℕ, ◌≡◌, String, Bool, Option, none, some, List, [], ◌∷◌, arith, ◌==◌, refl, subst, All,
  Bool-cases, Option-cases, inl, inr,
}
use abstract_block_dumper.Attempt.{TaskAttempt, fresh_attempt, manual}
use abstract_block_dumper.Attempt.Database.{Database, set_if, map_row}
use abstract_block_dumper.Attempt.Transitions.{Now, could_still_run, give_up_set, give_up_by_hand}
use abstract_block_dumper.Attempt.Reopen.{create_or_reopen, get_or_create, reopen, may_reopen}
use abstract_block_dumper.Attempt.Events.{
  Write, to_reopen, write_row, Event, on, by_hand, submit, run_write, run_event, run, get-run_write,
}

-- The change that the event `e` makes to row `j`, from `before` to `after`.
pub data Change (now : Now) (e : Event) (j : ℕ) (before after : Option TaskAttempt) : Type 0 where
  same : after ≡ before → Change now e j before after
  wrote :
      (w : Write)
      → e ≡ on j w
      → after ≡ map_row (write_row now w) before
      → Change now e j before after
  reopened :
      (limit block : ℕ) (path args : String)
      → e ≡ submit limit block path args
      → after ≡ map_row (write_row now to_reopen) before
      → Change now e j before after
  given_up :
      after ≡ map_row (set_if could_still_run (give_up_set now manual)) before
      → Change now e j before after
  created :
      (block : ℕ) (path args : String)
      → before ≡ none
      → after ≡ some (fresh_attempt now.local block path args)
      → Change now e j before after

module _ (db : Database) where
  open db use {Table, get, get-update, get-update_all, get-create, create_free}

  write-Change :
      (now : Now) (t : Table) (i : ℕ) (w : Write) (j : ℕ)
      → Change now (on i w) j (get t j) (get (run_write db now t i w).0 j)
  write-Change now t i w j = elim (Bool-cases (i == j)) [
    | inl e ↦ wrote w (ground arith) (rw get-run_write (rw e))
    | inr e ↦ same (rw get-run_write (rw e))
  ]

  hand-Change :
      (now : Now) (t : Table) (scope : TaskAttempt → Bool) (j : ℕ)
      → Change now (by_hand scope) j (get t j) (get (give_up_by_hand db now t scope).0 j)
  unfolding give_up_by_hand
  hand-Change now t scope j = elim (Option-cases (get t j)) [
    | inl e ↦ same (rw get-update_all (rw e))
    | inr (r, e) ↦ elim (Bool-cases (scope r)) [
      | inl s ↦ given_up (rw get-update_all (rw e (rw s)))
      | inr s ↦ same (rw get-update_all (rw e (rw s)))
    ]
  ]

  reopen-Change :
      (now : Now) (t : Table) (limit block : ℕ) (path args : String) (id j : ℕ)
      → Change now
          (submit limit block path args)
          j
          (get t j)
          (get (reopen db now limit t id (get t id)) j)
  unfolding write_row
  reopen-Change now t limit block path args id j = elim (Option-cases (get t id)) [
    | inl p ↦ same (rw p)
    | inr (r, p) ↦ elim (Bool-cases (may_reopen db now limit r)) [
      | inl m ↦ elim (Bool-cases (id == j)) [
        | inl q ↦ reopened limit block path args refl (rw (p, reopen) (rw m (rw get-update (rw q))))
        | inr q ↦ same (rw (p, reopen) (rw m (rw get-update (rw q))))
      ]
      | inr m ↦ same (rw (p, reopen) (rw m))
    ]
  ]

  free_at :
      (now : Now) (t : Table) (block : ℕ) (path args : String) (j : ℕ)
      → (db.create t (fresh_attempt now.local block path args)).1 ≡ j
      → get t j ≡ none
  free_at now t block path args j e = rw (← e) (create_free t _)

  create-Change :
      (now : Now) (t : Table) (e : Event) (block : ℕ) (path args : String) (j : ℕ)
      → Change now e j (get t j) (get (db.create t (fresh_attempt now.local block path args)).0 j)
  create-Change now t e block path args j =
      elim (Bool-cases ((db.create t (fresh_attempt now.local block path args)).1 == j)) [
        | inl q ↦
            created block path args (free_at now t block path args j (ground arith))
              (rw get-create (rw q))
        | inr q ↦ same (rw get-create (rw q))
      ]

  submit-Change :
      (now : Now) (t : Table) (limit block : ℕ) (path args : String) (j : ℕ)
      → Change now
          (submit limit block path args)
          j
          (get t j)
          (get (create_or_reopen db now t limit block path args).0 j)
  unfolding create_or_reopen
  submit-Change now t limit block path args j = elim (Option-cases (db.find t block path args)) [
    | inl p ↦ rw (p, get_or_create) (create-Change now t _ block path args j)
    | inr (id, p) ↦ rw (p, get_or_create) (reopen-Change now t limit block path args id j)
  ]

  pub event-Change :
      (now : Now) (t : Table) (e : Event) (j : ℕ)
      → Change now e j (get t j) (get (run_event db now t e) j)
  unfolding run_event
  event-Change now t (on i w) j = write-Change now t i w j
  event-Change now t (by_hand scope) j = hand-Change now t scope j
  event-Change now t (submit limit block path args) j = submit-Change now t limit block path args j

-- A property of rows: it holds of a row that was just inserted, and every write keeps it.
pub record IsKept (P : TaskAttempt → Type 0) : Type 0 where
  pub at_creation :
      (now : ℕ) (block : ℕ) (path args : String) → P (fresh_attempt now block path args)
  pub by_write : (now : Now) (w : Write) (r : TaskAttempt) → P r → P (write_row now w r)
  pub by_hand_over :
      (now : Now) (r : TaskAttempt) → P r → P (set_if could_still_run (give_up_set now manual) r)

abbrev pub OnRow : (TaskAttempt → Type 0) → Option TaskAttempt → Type 0
OnRow P none = Unit
OnRow P (some r) = P r

OnRow-map_row :
    (P : TaskAttempt → Type 0) (f : TaskAttempt → TaskAttempt)
    → ((r : TaskAttempt) → P r → P (f r))
    → (o : Option TaskAttempt) → OnRow P o
    → OnRow P (map_row f o)
OnRow-map_row P f keep none h = h
OnRow-map_row P f keep (some r) h = keep r h

OnRow-Change :
    {P : TaskAttempt → Type 0} {now : Now} {e : Event} {j : ℕ} {before after : Option TaskAttempt}
    → IsKept P
    → Change now e j before after
    → OnRow P before
    → OnRow P after
OnRow-Change k (same q) h = rw q h
OnRow-Change {P} {now} {before = before} k (wrote w _ q) h =
    rw q (OnRow-map_row P (write_row now w) (k.by_write now w) before h)
OnRow-Change {P} {now} {before = before} k (reopened _ _ _ _ _ q) h =
    rw q (OnRow-map_row P (write_row now to_reopen) (k.by_write now to_reopen) before h)
OnRow-Change {P} {now} {before = before} k (given_up q) h = rw q (
    OnRow-map_row P (set_if could_still_run (give_up_set now manual)) (k.by_hand_over now) before h)
OnRow-Change {now = now} k (created block path args _ q) h =
    rw q (k.at_creation now.local block path args)

-- Every row of the table satisfies `P`.
abbrev pub OnTable : (db : Database) → (TaskAttempt → Type 0) → db.Table → Type 0
OnTable db P t = (j : ℕ) → OnRow P (db.get t j)

pub run_keeps :
    (db : Database) (P : TaskAttempt → Type 0)
    → IsKept P
    → (t : db.Table) (trace : List (Now × Event)) → OnTable db P t
    → OnTable db P (run db t trace)
unfolding run
run_keeps db P k t [] h = h
run_keeps db P k t ((now, e) ∷ rest) h =
    run_keeps db P k (run_event db now t e) rest
      (λ j. OnRow-Change k (event-Change db now t e j) (h j))

-- The row is there and satisfies `P`.
abbrev pub IsRow : (TaskAttempt → Type 0) → Option TaskAttempt → Type 0
IsRow P none = ⊥
IsRow P (some r) = P r

-- Which writes a trace makes to the row `id`: a submission may reopen any row.
abbrev pub Allows : (Now → Write → Type 0) → ℕ → Now × Event → Type 0
Allows Ok id (now, on i w) = i ≡ id → Ok now w
Allows Ok id (now, by_hand scope) = Unit
Allows Ok id (now, submit limit block path args) = Ok now to_reopen

-- The writes that satisfy `Ok`, and the operator's command, keep `P`.
pub record Persists (P : TaskAttempt → Type 0) (Ok : Now → Write → Type 0) : Type 0 where
  pub by_write : (now : Now) (w : Write) (r : TaskAttempt) → Ok now w → P r → P (write_row now w r)
  pub by_hand_over :
      (now : Now) (r : TaskAttempt) → P r → P (set_if could_still_run (give_up_set now manual) r)

IsRow-map_row :
    (P : TaskAttempt → Type 0) (f : TaskAttempt → TaskAttempt) (o : Option TaskAttempt)
    → ((r : TaskAttempt) → P r → P (f r))
    → IsRow P o
    → IsRow P (map_row f o)
IsRow-map_row P f none keep h = h
IsRow-map_row P f (some r) keep h = keep r h

module _ (Ok : Now → Write → Type 0) where
  pub allowed_write :
      (now : Now) {e : Event} (j : ℕ) (w : Write) → e ≡ on j w → Allows Ok j (now, e) → Ok now w
  allowed_write now j w p a = subst (λ e. Allows Ok j (now, e)) p a refl

  allowed_submit :
      (now : Now) {e : Event} {limit block : ℕ} {path args : String} (j : ℕ)
      → e ≡ submit limit block path args
      → Allows Ok j (now, e)
      → Ok now to_reopen
  allowed_submit now j p a = subst (λ e. Allows Ok j (now, e)) p a

module _ {P : TaskAttempt → Type 0} {Ok : Now → Write → Type 0} (k : Persists P Ok) where
  IsRow-Change :
      {now : Now} {e : Event} {j : ℕ} {before after : Option TaskAttempt}
      → Change now e j before after
      → Allows Ok j (now, e)
      → IsRow P before
      → IsRow P after
  IsRow-Change (same q) a h = rw q h
  IsRow-Change {now} {j = j} {before = before} (wrote w p q) a h = rw q (
      IsRow-map_row P (write_row now w) before
        (λ r. k.by_write now w r (allowed_write Ok now j w p a)) h)
  IsRow-Change {now} {j = j} {before = before} (reopened limit block path args p q) a h = rw q (
      IsRow-map_row P (write_row now to_reopen) before
        (λ r. k.by_write now to_reopen r (allowed_submit Ok now j p a)) h)
  IsRow-Change {now} {before = before} (given_up q) a h = rw q (
      IsRow-map_row P (set_if could_still_run (give_up_set now manual)) before (k.by_hand_over now)
        h)
  IsRow-Change (created block path args p q) a h = absurd (subst (IsRow P) p h)

  -- A row keeps `P` through every trace that makes only such writes to it.
  pub run_persists :
      (db : Database) (t : db.Table) (id : ℕ) (trace : List (Now × Event))
      → All (Allows Ok id) trace
      → IsRow P (db.get t id)
      → IsRow P (db.get (run db t trace) id)
  unfolding run
  run_persists db t id [] a h = h
  run_persists db t id ((now, e) ∷ rest) a h =
      run_persists db (run_event db now t e) id rest a.1
        (IsRow-Change (event-Change db now t e id) a.0 h)
