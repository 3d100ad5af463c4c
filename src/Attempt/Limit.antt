-- ===== src/Attempt/Limit.antt =====
-- A limit on tries, as `RetryPolicy.max_attempts` sets one.
use abstract_block_dumper.Prelude.{
  ℕ, ◌≤◌, ◌<◌, ◌≡◌, true, Option, none, some, List, ◌∷◌, [], arith, is_some, subst, sym,
}
use abstract_block_dumper.Attempt.{TaskAttempt, pending, running, failed, manual}
use abstract_block_dumper.Attempt.Database.{Database, map_row, set_if}
use abstract_block_dumper.Attempt.Transitions.{
  Now, could_still_run, give_up_set, expired_message_filter,
}
use abstract_block_dumper.Attempt.Reads.{is_stuck}
use abstract_block_dumper.Attempt.Events.{
  Write, to_claim, to_finish_failure, to_fail_expired_lease, to_reopen, Event, write_row, run,
  run_event,
}
use abstract_block_dumper.Attempt.Changes.{
  Change, same, wrote, reopened, given_up, created, event-Change, IsRow, Allows, allowed_write,
}
use abstract_block_dumper.Attempt.Counting.{tries}

-- What holds of an attempt that may be tried `limit` times.
pub record IsWithin (limit : ℕ) (r : TaskAttempt) : Type 0 where
  pub bounded : r.attempt_count ≤ limit
  pub pending_left : r.status ≡ pending → r.attempt_count < limit
  pub failed_left : r.status ≡ failed → r.give_up_reason ≡ none → r.attempt_count < limit
  pub retry_left : r.status ≡ failed → is_some r.next_retry_at ≡ true → r.attempt_count < limit
  pub leased : r.status ≡ running → is_some r.lease_expires_at ≡ true

-- What a policy with that limit lets a process write to an attempt tried `count` times: a claim
-- has a lease, and a failure sets a retry only while tries are left.
abbrev pub Obeys : ℕ → ℕ → Now → Write → Type 0
Obeys limit count now (to_claim token lease) = is_some lease ≡ true
Obeys limit count now (to_finish_failure token (some delay)) = count < limit
Obeys limit count now (to_fail_expired_lease (some delay)) = count < limit
Obeys limit count now _ = Unit

write-IsWithin :
    (limit : ℕ) (now : Now) (w : Write) (r : TaskAttempt)
    → Obeys limit r.attempt_count now w
    → IsWithin limit r
    → IsWithin limit (write_row now w r)
unfolding write_row expired_message_filter is_stuck
write-IsWithin limit now (to_claim token none) r o h = cc
write-IsWithin limit now (to_claim token (some lease)) r o h = ground arith
write-IsWithin limit now (to_finish_failure token none) r o h = ground arith
write-IsWithin limit now (to_finish_failure token (some delay)) r o h = ground arith
write-IsWithin limit now (to_fail_expired_lease none) r o h = ground arith
write-IsWithin limit now (to_fail_expired_lease (some delay)) r o h = ground arith
write-IsWithin limit now _ r o h = ground arith

write-IsWithin-IsRow :
    (limit : ℕ) (now : Now) (w : Write) (o : Option TaskAttempt)
    → Obeys limit (tries o) now w
    → IsRow (IsWithin limit) o
    → IsRow (IsWithin limit) (map_row (write_row now w) o)
write-IsWithin-IsRow limit now w none a h = h
write-IsWithin-IsRow limit now w (some r) a h = write-IsWithin limit now w r a h

hand-IsWithin-IsRow :
    (limit : ℕ) (now : Now) (o : Option TaskAttempt)
    → IsRow (IsWithin limit) o
    → IsRow (IsWithin limit) (map_row (set_if could_still_run (give_up_set now manual)) o)
hand-IsWithin-IsRow limit now none h = h
hand-IsWithin-IsRow limit now (some r) h = ground arith

Change-IsWithin :
    (limit : ℕ) {now : Now} {e : Event} {j : ℕ} {before after : Option TaskAttempt}
    → Change now e j before after
    → Allows (Obeys limit (tries before)) j (now, e)
    → IsRow (IsWithin limit) before
    → IsRow (IsWithin limit) after
Change-IsWithin limit (same q) a h = subst (IsRow (IsWithin limit)) (sym q) h
Change-IsWithin limit {now} {j = j} {before = before} (wrote w p q) a h = rw q (
    write-IsWithin-IsRow limit now w before (allowed_write (Obeys limit (tries before)) now j w p a)
      h)
Change-IsWithin limit {now} {before = before} (reopened _ _ _ _ p q) a h =
    rw q (write-IsWithin-IsRow limit now to_reopen before tt h)
Change-IsWithin limit {now} {before = before} (given_up q) a h =
    rw q (hand-IsWithin-IsRow limit now before h)
Change-IsWithin limit (created _ _ _ p q) a h = absurd (subst (IsRow (IsWithin limit)) p h)

-- Every event of the trace obeys the limit at the number of tries that the attempt has then.
unfoldable pub Follows : (db : Database) → ℕ → ℕ → db.Table → List (Now × Event) → Type 0
Follows db limit id t [] = Unit
Follows db limit id t ((now, e) ∷ rest) =
    Allows (Obeys limit (tries (db.get t id))) id (now, e)
    × Follows db limit id (run_event db now t e) rest

-- The limit on tries is kept: when every failure sets a retry only while tries are left, and every
-- claim has a lease, the attempt is never tried more than `limit` times, and each state in which it
-- could run again has a try left.
pub run-IsWithin :
    (db : Database) (limit id : ℕ) (t : db.Table) (trace : List (Now × Event))
    → Follows db limit id t trace
    → IsRow (IsWithin limit) (db.get t id)
    → IsRow (IsWithin limit) (db.get (run db t trace) id)
unfolding run Follows
run-IsWithin db limit id t [] f h = h
run-IsWithin db limit id t ((now, e) ∷ rest) f h =
    run-IsWithin db limit id (run_event db now t e) rest f.1
      (Change-IsWithin limit (event-Change db now t e id) f.0 h)
