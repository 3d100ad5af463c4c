-- ===== src/Backfill/Queued/Room.antt =====
-- services/throttle.py: the room that a gate knows of, in a pass that does not wait.
use abstract_block_dumper.Prelude.{
  ℕ, zero, suc, ◌+◌, ◌-◌, ◌≤◌, ◌≡◌, refl, true, false, Option, none, some, lookup,
  lookup-insert_self, Bool-cases, inl, inr, arith, sym, subst,
}
use abstract_block_dumper.Numeric.{Value, ℤ, plus, minus, is_positive}
use abstract_block_dumper.Queue.{Queue}
use abstract_block_dumper.Attempt.Database.{Database}
use abstract_block_dumper.Attempt.Transitions.{Now}
use abstract_block_dumper.Registry.Items.{policy}
use abstract_block_dumper.Settings.{Settings, Read, valid, value_error, ◌>>=◌}
use abstract_block_dumper.Throttle.{
  Gate, Admission, is_admitted, admit, admit_throttled, admit_limited, admit_with, read_free,
  read_inflight, has_room, spent,
}

-- What a gate knows of a queue with the throttle `limit`, `n` messages into a pass that does not wait.
unfoldable pub Room : ℕ → Option ℤ → ℕ → Type 0
Room limit none n = n ≡ 0
Room limit (some (plus k)) n = n + k ≤ limit
Room limit (some (minus k)) n = ⊥

pub record Kept (q : Queue) (limit n : ℕ) {T : Type 0} (g : Gate T) : Type 0 where
  pub no_wait : g.wait ≡ false
  pub room : Room limit (lookup q.name g.free) n

spent-at :
    {T : Type 0} (q : Queue) (limit n : ℕ) (g : Gate T) (o : Option ℤ)
    → lookup q.name g.free ≡ o
    → g.wait ≡ false
    → Room limit o n
    → has_room o ≡ true
    → Kept q limit (suc n) (spent g (some (policy q)))
unfolding spent Room
spent-at q limit n g none e w r h = cc
spent-at q limit n g (some (minus k)) e w r h = cc
spent-at q limit n g (some (plus zero)) e w r h = cc
spent-at q limit n g (some (plus (suc k))) e w r h =
    rw (spent, e) (record { no_wait = w; room = rw lookup-insert_self (omega (arith, r)) })

-- A message went out, for which there was room.
pub spent-Kept :
    {T : Type 0} (q : Queue) (limit n : ℕ) (g : Gate T)
    → Kept q limit n g
    → has_room (lookup q.name g.free) ≡ true
    → Kept q limit (suc n) (spent g (some (policy q)))
spent-Kept q limit n g k h = spent-at q limit n g _ refl k.no_wait k.room h

-- The gate after an admission, and what the answer says.
unfoldable pub AfterAdmit : {T : Type 0} → Queue → ℕ → ℕ → Read (Gate T × Admission) → Type 0
AfterAdmit q limit n value_error = Unit {0}
AfterAdmit q limit n (valid (g, a)) =
    Kept q limit n g × (is_admitted a ≡ true → has_room (lookup q.name g.free) ≡ true)

module _ (db : Database) (s : Settings) (poll_seconds : Value) where
  open db use {Table}

  admit_with-Kept :
      (q : Queue) (limit m : ℕ) (g : Gate Table)
      → g.wait ≡ false
      → m ≤ limit
      → AfterAdmit q limit 0 (admit_with db s poll_seconds g q limit m)
  unfolding admit_with Room AfterAdmit
  admit_with-Kept q limit m g w h = elim (Bool-cases (is_positive (plus m))) [
    | inl y ↦ rw y (
      record { no_wait = w; room = rw lookup-insert_self (omega (arith, h)) },
      λ e. rw lookup-insert_self y,
    )
    | inr n ↦
        rw n (
          rw w
            (record { no_wait = refl; room = rw lookup-insert_self (omega (arith, h)) }, λ e. cc))
  ]

  looked :
      (q : Queue) (limit : ℕ) (g : Gate Table) (inflight : Read ℕ)
      → g.wait ≡ false
      → AfterAdmit q limit 0
          ((inflight >>= λ i. valid (limit - i)) >>= λ n. admit_with db s poll_seconds g q limit n)
  unfolding AfterAdmit
  looked q limit g value_error w = tt
  looked q limit g (valid i) w = admit_with-Kept q limit (limit - i) g w (omega arith)

  -- A first look.
  admit_throttled-none :
      (now : Now) (t : Table) (g : Gate Table) (q : Queue) (limit : ℕ)
      → g.wait ≡ false
      → lookup q.name g.free ≡ none
      → AfterAdmit q limit 0 (admit_throttled db s poll_seconds now t g q limit)
  unfolding admit_throttled read_free AfterAdmit
  admit_throttled-none now t g q limit w e =
      rw e (looked q limit g (read_inflight db s poll_seconds now t q) w)

  admit_throttled-some :
      (now : Now) (t : Table) (g : Gate Table) (q : Queue) (limit n : ℕ) (m : ℤ)
      → Kept q limit n g
      → lookup q.name g.free ≡ some m
      → AfterAdmit q limit n (admit_throttled db s poll_seconds now t g q limit)
  unfolding admit_throttled AfterAdmit
  admit_throttled-some now t g q limit n m k e =
      elim (Bool-cases (has_room (lookup q.name g.free))) [
        | inl y ↦ rw y (k, λ a. y)
        | inr z ↦ rw z (rw e (rw k.no_wait (record { no_wait = refl; room = k.room }, λ a. cc)))
      ]

  admit_throttled-Kept :
      (now : Now) (t : Table) (g : Gate Table) (q : Queue) (limit n : ℕ) (o : Option ℤ)
      → lookup q.name g.free ≡ o
      → g.wait ≡ false
      → Room limit o n
      → AfterAdmit q limit n (admit_throttled db s poll_seconds now t g q limit)
  unfolding Room
  admit_throttled-Kept now t g q limit n none e w r =
      rw r (admit_throttled-none now t g q limit w e)
  admit_throttled-Kept now t g q limit n (some m) e w r =
      admit_throttled-some now t g q limit n m (record { no_wait = w; room = rw e r }) e

  pub admit-Kept :
      (now : Now) (t : Table) (g : Gate Table) (q : Queue) (limit n : ℕ)
      → q.throttle ≡ some limit
      → Kept q limit n g
      → AfterAdmit q limit n (admit db s poll_seconds now t g (some (policy q)))
  unfolding admit admit_limited
  admit-Kept now t g q limit n e k =
      subst (λ o. AfterAdmit q limit n (admit_limited db s poll_seconds now t g q o)) (sym e)
        (admit_throttled-Kept now t g q limit n _ refl k.no_wait k.room)
