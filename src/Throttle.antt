-- ===== src/Throttle.antt =====
-- _internal/services/throttle.py: admission of backfill and lookback submissions to a queue.
--
-- What a waiting gate sees after each sleep is given by a list of looks, in order: whether to go on,
-- the clocks and the table at that moment. A gate that has used up its looks is still waiting.
pub mod Waits
use abstract_block_dumper.Prelude.{
  ℕ, ◌+◌, ◌-◌, Bool, true, false, not, ◌&&◌, Option, none, some, List, ◌∷◌, [], Dict, insert,
  lookup, if◌then◌else◌, is_some,
}
use abstract_block_dumper.Numeric.{ℤ, plus, is_positive, decrement, Value, is_positive_number}
use abstract_block_dumper.Queue.{Queue}
use abstract_block_dumper.Attempt.Database.{Database}
use abstract_block_dumper.Attempt.Transitions.{Now}
use abstract_block_dumper.Attempt.Reads.{count_inflight}
use abstract_block_dumper.Registry.Items.{Target, policy}
use abstract_block_dumper.Settings.{
  Settings, Read, valid, value_error, ◌>>=◌, stale_task_settings, recovery_margin_seconds,
}

pub data Admission : Type 0 where
  admitted refused waiting : Admission

abbrev pub is_admitted : Admission → Bool
is_admitted admitted = true
is_admitted _ = false

-- The table as a gate may find it.
pub record Look (T : Type 0) : Type 0 where
  pub should_continue : Bool
  pub now : Now
  pub table : T

-- `ThrottleGate`: `free` is `_free`, `looks` is what its waits will see.
pub record Gate (T : Type 0) : Type 0 where
  pub wait : Bool
  pub free : Dict ℤ
  pub looks : List (Look T)

-- Room is known and left.
abbrev pub has_room : Option ℤ → Bool
has_room none = false
has_room (some n) = is_positive n

abbrev ttl_window : Settings → Option ℕ → Read (Option ℕ)
ttl_window s none = valid none
ttl_window s (some ttl) = do margin ← recovery_margin_seconds s; valid (some (ttl + margin))

abbrev stale_bound : Now → Option ℕ → Option ℕ
stale_bound now none = none
stale_bound now (some timeout) = some (now.local - timeout)

-- `spent`
unfoldable pub spent : {T : Type 0} → Gate T → Option Target → Gate T
spent g (some (policy q)) = elim (lookup q.name g.free) [
  | none ↦ g
  | some n ↦ record g { free = insert q.name (decrement n) g.free }
]
spent g _ = g

module _ (db : Database) (s : Settings) (poll_seconds : Value) where
  open db use {Table}

  unfoldable pub read_inflight : Now → Table → Queue → Read ℕ
  read_inflight now t q = do
    sweep ← stale_task_settings s
    window ← ttl_window s q.message_ttl
    valid (count_inflight db now t q.name window (stale_bound now sweep.timeout))

  -- `_read_free`, for a queue whose throttle is `limit`
  unfoldable pub read_free : Now → Table → Queue → ℕ → Read ℕ
  unfolding read_inflight
  read_free now t q limit = do inflight ← read_inflight now t q; valid (limit - inflight)

  abbrev with_free : Gate Table → Queue → ℕ → List (Look Table) → Gate Table
  with_free g q n looks = record g { free = insert q.name (plus n) g.free; looks = looks }

  -- The loop of `admit`, over the looks.
  unfoldable pub wait_for_room :
      Gate Table → Queue → ℕ → List (Look Table) → Read (Gate Table × Admission)
  unfolding read_free
  wait_for_room g q limit [] = valid (record g { looks = [] }, waiting)
  wait_for_room g q limit (look ∷ looks) =
      let rest = λ (n : ℕ). wait_for_room (with_free g q n looks) q limit looks in
      if not (is_positive_number poll_seconds)
      then value_error
      else if not look.should_continue
      then valid (record g { looks = looks }, refused)
      else do
        n ← read_free look.now look.table q limit
        if is_positive (plus n) then valid (with_free g q n looks, admitted) else rest n

  -- What `admit` does with the room that it has just read.
  unfoldable pub admit_with : Gate Table → Queue → ℕ → ℕ → Read (Gate Table × Admission)
  unfolding wait_for_room
  admit_with g q limit n =
      if is_positive (plus n)
      then valid (with_free g q n g.looks, admitted)
      else if not g.wait
      then valid (with_free g q n g.looks, refused)
      else wait_for_room (with_free g q n g.looks) q limit g.looks

  unfoldable pub admit_throttled :
      Now → Table → Gate Table → Queue → ℕ → Read (Gate Table × Admission)
  unfolding admit_with
  admit_throttled now t g q limit =
      if has_room (lookup q.name g.free)
      then valid (g, admitted)
      else if is_some (lookup q.name g.free) && not g.wait
      then valid (g, refused)
      else (do n ← read_free now t q limit; admit_with g q limit n)

  unfoldable pub admit_limited :
      Now → Table → Gate Table → Queue → Option ℕ → Read (Gate Table × Admission)
  unfolding admit_throttled
  admit_limited now t g q none = valid (g, admitted)
  admit_limited now t g q (some limit) = admit_throttled now t g q limit

  -- `admit`: plain queue names and queues without a throttle always pass.
  unfoldable pub admit : Now → Table → Gate Table → Option Target → Read (Gate Table × Admission)
  unfolding admit_limited
  admit now t g (some (policy q)) = admit_limited now t g q q.throttle
  admit now t g _ = valid (g, admitted)
