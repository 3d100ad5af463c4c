-- ===== src/Throttle/Waits.antt =====
-- _internal/services/throttle.py: how the wait for room ends.
use abstract_block_dumper.Prelude.{
  ℕ, zero, suc, ◌≡◌, ◌⊎◌, refl, Bool, true, false, not, ◌&&◌, some, List, ◌∷◌, [], All, any, lookup,
  lookup-insert_self, is_some, if◌then◌else◌, Bool-cases, inl, inr, sym, ap, ◌||◌, ◌∙◌, subst,
}
use abstract_block_dumper.Numeric.{plus, is_positive, Value, is_positive_number}
use abstract_block_dumper.Queue.{Queue}
use abstract_block_dumper.Attempt.Database.{Database}
use abstract_block_dumper.Attempt.Transitions.{Now}
use abstract_block_dumper.Registry.Items.{policy}
use abstract_block_dumper.Settings.{Settings, Read, valid, value_error, ◌>>=◌}
use abstract_block_dumper.Throttle.{
  Admission, admitted, refused, waiting, Look, Gate, has_room, read_free, wait_for_room, with_free,
  admit_with, admit_throttled, admit_limited, admit,
}

module _ (db : Database) (s : Settings) (poll_seconds : Value) where
  open db use {Table}

  -- The gate was to go on, and the queue was full.
  abbrev pub ShowsNoRoom : Queue → ℕ → Look Table → Type 0
  ShowsNoRoom q limit look =
      (look.should_continue ≡ true)
      × (read_free db s poll_seconds look.now look.table q limit ≡ valid 0)

  abbrev pub tells_to_stop : List (Look Table) → Bool
  tells_to_stop = any (λ look. not look.should_continue)

  -- What an answer says, for a gate that may wait over the looks.
  unfoldable pub Explains :
      Bool → List (Look Table) → Queue → ℕ → Read (Gate Table × Admission) → Type 0
  Explains waits looks q limit value_error = Unit
  Explains waits looks q limit (valid (g, admitted)) = has_room (lookup q.name g.free) ≡ true
  Explains waits looks q limit (valid (g, refused)) = (waits ≡ false) ⊎ (tells_to_stop looks ≡ true)
  Explains waits looks q limit (valid (g, waiting)) =
      (waits ≡ true) × All (ShowsNoRoom q limit) looks

  -- One look that shows no room comes before the others.
  Explains-cons :
      (look : Look Table) (looks : List (Look Table)) (q : Queue) (limit : ℕ)
      (r : Read (Gate Table × Admission))
      → ShowsNoRoom q limit look
      → Explains true looks q limit r
      → Explains true (look ∷ looks) q limit r
  unfolding Explains
  Explains-cons look looks q limit value_error h e = tt
  Explains-cons look looks q limit (valid (g, admitted)) h e = e
  Explains-cons look looks q limit (valid (g, refused)) h (inl w) = cc
  Explains-cons look looks q limit (valid (g, refused)) h (inr t) = inr (rw (h.0) t)
  Explains-cons look looks q limit (valid (g, waiting)) h e = (e.0, (h, e.1))

  has_room-with_free :
      (g : Gate Table) (q : Queue) (n : ℕ) (looks : List (Look Table))
      → has_room (lookup q.name (with_free db s poll_seconds g q n looks).free)
        ≡ is_positive (plus n)
  has_room-with_free g q n looks = rw lookup-insert_self refl

  -- One look, and what follows when it shows no room.
  after_look :
      (g : Gate Table) (q : Queue) (limit : ℕ) (look : Look Table) (looks : List (Look Table))
      (go : Bool) (r : Read ℕ) (rest : ℕ → Read (Gate Table × Admission))
      → look.should_continue ≡ go
      → read_free db s poll_seconds look.now look.table q limit ≡ r
      → ((n : ℕ) → Explains true looks q limit (rest n))
      → Explains true (look ∷ looks) q limit (
          if not go
          then valid (record g { looks = looks }, refused)
          else (r >>= λ n.
              if is_positive (plus n)
              then valid (with_free db s poll_seconds g q n looks, admitted)
              else rest n))
  unfolding Explains
  after_look g q limit look looks false r rest e f k =
      inr (ap (λ b. not b || tells_to_stop looks) e)
  after_look g q limit look looks true value_error rest e f k = tt
  after_look g q limit look looks true (valid (suc n)) rest e f k =
      has_room-with_free g q (suc n) looks
  after_look g q limit look looks true (valid zero) rest e f k =
      Explains-cons look looks q limit (rest 0) (e, f) (k 0)

  wait_for_room-Explains :
      (g : Gate Table) (q : Queue) (limit : ℕ) (looks : List (Look Table))
      → Explains true looks q limit (wait_for_room db s poll_seconds g q limit looks)
  unfolding wait_for_room Explains
  wait_for_room-Explains g q limit [] = (refl, tt)
  wait_for_room-Explains g q limit (look ∷ looks) =
      elim (Bool-cases (is_positive_number poll_seconds)) [
        | inr n ↦ rw n tt
        | inl y ↦ rw y (
            after_look g q limit look looks look.should_continue
              (read_free db s poll_seconds look.now look.table q limit)
              (λ n.
                wait_for_room db s poll_seconds (with_free db s poll_seconds g q n looks) q limit
                  looks)
              refl refl
              (λ n. wait_for_room-Explains (with_free db s poll_seconds g q n looks) q limit looks))
      ]

  -- The room was read: there is some, the gate does not wait, or it does.
  after_read :
      (g : Gate Table) (q : Queue) (limit n : ℕ) (room waits : Bool)
      → is_positive (plus n) ≡ room
      → Explains waits g.looks q limit (
          if room
          then valid (with_free db s poll_seconds g q n g.looks, admitted)
          else if not waits
          then valid (with_free db s poll_seconds g q n g.looks, refused)
          else wait_for_room db s poll_seconds
              (with_free db s poll_seconds g q n g.looks)
              q
              limit
              g.looks)
  unfolding Explains
  after_read g q limit n true waits e = has_room-with_free g q n g.looks ∙ e
  after_read g q limit n false false e = inl refl
  after_read g q limit n false true e =
      wait_for_room-Explains (with_free db s poll_seconds g q n g.looks) q limit g.looks

  after_reading :
      (g : Gate Table) (q : Queue) (limit : ℕ) (r : Read ℕ)
      → Explains g.wait g.looks q limit (r >>= admit_with db s poll_seconds g q limit)
  unfolding admit_with Explains
  after_reading g q limit value_error = tt
  after_reading g q limit (valid n) = after_read g q limit n (is_positive (plus n)) g.wait refl

  -- What the gate already knows.
  known :
      (g : Gate Table) (q : Queue) (limit : ℕ) (room seen waits : Bool)
      (r : Read (Gate Table × Admission))
      → has_room (lookup q.name g.free) ≡ room
      → Explains waits g.looks q limit r
      → Explains waits g.looks q limit (
          if room then valid (g, admitted) else if seen && not waits then valid (g, refused) else r)
  unfolding Explains
  known g q limit true seen waits r e k = e
  known g q limit false true false r e k = inl refl
  known g q limit false true true r e k = k
  known g q limit false false waits r e k = k

  throttled-Explains :
      (now : Now) (t : Table) (g : Gate Table) (q : Queue) (limit : ℕ)
      → Explains g.wait g.looks q limit (admit_throttled db s poll_seconds now t g q limit)
  unfolding admit_throttled
  throttled-Explains now t g q limit =
      known g q limit (has_room (lookup q.name g.free)) (is_some (lookup q.name g.free)) g.wait _
        refl (after_reading g q limit (read_free db s poll_seconds now t q limit))

  -- A throttled gate admits only with room for the queue; it refuses only if it is not to wait, or was
  -- told to stop; and it is still waiting only if at every look it was to go on and the queue was full:
  -- the first look with room, or with the word to stop, ends the wait.
  pub admit-Explains :
      (now : Now) (t : Table) (g : Gate Table) (q : Queue) (limit : ℕ)
      → q.throttle ≡ some limit
      → Explains g.wait g.looks q limit (admit db s poll_seconds now t g (some (policy q)))
  unfolding admit admit_limited
  admit-Explains now t g q limit e =
      subst (λ o. Explains g.wait g.looks q limit (admit_limited db s poll_seconds now t g q o))
        (sym e) (throttled-Explains now t g q limit)
