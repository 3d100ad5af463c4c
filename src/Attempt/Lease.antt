-- ===== src/Attempt/Lease.antt =====
-- Exclusive execution: a claim is kept until its holder finishes or its lease passes, and a holder
-- that lost its claim can write no outcome.
use abstract_block_dumper.Prelude.{
  ℕ, ◌+◌, ◌≤◌, ◌≡◌, String, Bool, true, false, Option, none, some, List, arith, str_eq, eq_iff,
  refl, All,
}
use abstract_block_dumper.Attempt.{TaskAttempt, running}
use abstract_block_dumper.Attempt.Database.{Database, set_if, map_row, holds}
use abstract_block_dumper.Attempt.Transitions.{
  Now, expired_message_filter, claim, finish_success, finish_failure, claim_where, claim_set,
  held_where,
}
use abstract_block_dumper.Attempt.Results.{get-transition, transition_result, claim_result}
use abstract_block_dumper.Attempt.Reads.{is_stuck}
use abstract_block_dumper.Attempt.Events.{
  Write, to_claim, to_finish_success, to_finish_failure, to_fail_expired_lease, write_row, Event,
  run,
}
use abstract_block_dumper.Attempt.Changes.{Persists, IsRow, Allows, run_persists}

-- The attempt is executed under `token`, with a lease up to `lease`.
pub record IsHeld (token : String) (lease : ℕ) (r : TaskAttempt) : Type 0 where
  pub status : r.status ≡ running
  pub holder : r.celery_task_id ≡ some token
  pub lease_end : r.lease_expires_at ≡ some lease

-- The writes by which the holder of `token` itself ends its claim.
abbrev pub finishes : String → Write → Bool
finishes token (to_finish_success token' result) = str_eq token' token
finishes token (to_finish_failure token' delay) = str_eq token' token
finishes token _ = false

-- No write is the holder's own outcome, and the database clock does not pass the lease.
abbrev pub IsUndisturbing : String → ℕ → Now → Write → Type 0
IsUndisturbing token lease now w = (now.db ≤ lease) × (finishes token w ≡ false)

write-IsHeld :
    (token : String) (lease : ℕ) (now : Now) (w : Write) (r : TaskAttempt)
    → IsUndisturbing token lease now w
    → IsHeld token lease r
    → IsHeld token lease (write_row now w r)
unfolding write_row expired_message_filter is_stuck
write-IsHeld token lease now (to_finish_success token' result) r n h =
    ground (arith, eq_iff token token', eq_iff token' token)
write-IsHeld token lease now (to_finish_failure token' delay) r n h =
    ground (arith, eq_iff token token', eq_iff token' token)
write-IsHeld token lease now _ r n h = ground arith

IsHeld-Persists :
    (token : String) (lease : ℕ) → Persists (IsHeld token lease) (IsUndisturbing token lease)
IsHeld-Persists token lease = record {
  by_write = write-IsHeld token lease;
  by_hand_over = λ now r h. ground arith;
}

won_claim-IsRow :
    (now : Now) (token : String) (seconds : ℕ) (o : Option TaskAttempt)
    → holds (claim_where now) o ≡ true
    → IsRow
        (IsHeld token (now.db + seconds))
        (map_row (set_if (claim_where now) (claim_set now token (some seconds))) o)
won_claim-IsRow now token seconds none h = cc
won_claim-IsRow now token seconds (some r) h =
    rw h (record { status = refl; holder = refl; lease_end = refl })

held_row_refuses :
    (token : String) (lease : ℕ) (now : Now) (o : Option TaskAttempt)
    → IsRow (IsHeld token lease) o
    → holds (claim_where now) o ≡ false
held_row_refuses token lease now none h = absurd h
held_row_refuses token lease now (some r) h = ground arith

-- A worker that claims an attempt with a lease executes it alone: whatever is written to the table
-- while the database clock does not pass the lease and the worker records no outcome itself, the
-- attempt stays RUNNING under the worker's token and its lease, and every other claim of it fails.
pub claim_exclusive :
    (db : Database) (t : db.Table) (now : Now) (id : ℕ) (token : String) (seconds : ℕ)
    (trace : List (Now × Event)) (later : Now) (other : String) (lease : Option ℕ)
    → (claim db now t id token (some seconds)).1 ≡ true
    → All (Allows (IsUndisturbing token (now.db + seconds)) id) trace
    → IsRow
        (IsHeld token (now.db + seconds))
        (db.get (run db (claim db now t id token (some seconds)).0 trace) id)
      × ((claim db later (run db (claim db now t id token (some seconds)).0 trace) id other lease).1
          ≡ false)
claim_exclusive db t now id token seconds trace later other lease won quiet =
    (still, rw claim_result (held_row_refuses token (now.db + seconds) later _ still))
  where
    first :
        IsRow
          (IsHeld token (now.db + seconds))
          (db.get (claim db now t id token (some seconds)).0 id)
    first =
        unfold claim in
        rw get-transition (won_claim-IsRow now token seconds _ (rw claim_result at won))

    still :
        IsRow
          (IsHeld token (now.db + seconds))
          (db.get (run db (claim db now t id token (some seconds)).0 trace) id)
    still = run_persists (IsHeld-Persists token (now.db + seconds)) db _ id trace quiet first

-- The attempt, if it exists, is not executed under `token`.
abbrev pub IsLost : String → TaskAttempt → Type 0
IsLost token r = held_where token r ≡ false

abbrev pub claims : String → Write → Bool
claims token (to_claim token' lease) = str_eq token' token
claims token _ = false

-- No write claims the attempt under this token.
abbrev pub IsNoClaimOf : String → Now → Write → Type 0
IsNoClaimOf token now w = claims token w ≡ false

write-IsLost :
    (token : String) (now : Now) (w : Write) (r : TaskAttempt)
    → IsNoClaimOf token now w
    → IsLost token r
    → IsLost token (write_row now w r)
unfolding write_row expired_message_filter is_stuck
write-IsLost token now (to_claim token' lease) r n h = ground (arith, eq_iff token' token)
write-IsLost token now (to_finish_failure token' none) r n h = ground arith
write-IsLost token now (to_finish_failure token' (some delay)) r n h = ground arith
write-IsLost token now (to_fail_expired_lease none) r n h = ground arith
write-IsLost token now (to_fail_expired_lease (some delay)) r n h = ground arith
write-IsLost token now _ r n h = ground arith

IsLost-Persists : (token : String) → Persists (IsLost token) (IsNoClaimOf token)
IsLost-Persists token = record {
  by_write = write-IsLost token;
  by_hand_over = λ now r h. ground arith;
}

lost_row_refuses :
    (token : String) (o : Option TaskAttempt)
    → IsRow (IsLost token) o
    → holds (held_where token) o ≡ false
lost_row_refuses token none h = absurd h
lost_row_refuses token (some r) h = h

unchanged_row :
    (p : TaskAttempt → Bool) (set : TaskAttempt → TaskAttempt) (o : Option TaskAttempt)
    → holds p o ≡ false
    → map_row (set_if p set) o ≡ o
unchanged_row p set none h = refl
unchanged_row p set (some r) h = rw h refl

-- Fencing: a worker whose attempt was taken over, so that it is no longer RUNNING under its token,
-- can write neither a success nor a failure, whatever others write in the meantime, unless the same
-- token claims the attempt again: both transitions report False and leave the row as it is.
pub lost_claim_fenced :
    (db : Database) (t : db.Table) (id : ℕ) (token : String) (trace : List (Now × Event))
    (now : Now) (result : Option String) (delay : Option ℕ)
    → IsRow (IsLost token) (db.get t id)
    → All (Allows (IsNoClaimOf token) id) trace
    → ((finish_success db now (run db t trace) id token result).1 ≡ false)
      × (db.get (finish_success db now (run db t trace) id token result).0 id
          ≡ db.get (run db t trace) id)
      × ((finish_failure db now (run db t trace) id token delay).1 ≡ false)
      × (db.get (finish_failure db now (run db t trace) id token delay).0 id
          ≡ db.get (run db t trace) id)
unfolding finish_success finish_failure
lost_claim_fenced db t id token trace now result delay lost others = (
  rw transition_result refused,
  rw get-transition (unchanged_row _ _ _ refused),
  rw transition_result refused,
  rw get-transition (unchanged_row _ _ _ refused),
)
  where
    refused : holds (held_where token) (db.get (run db t trace) id) ≡ false
    refused =
        lost_row_refuses token _ (run_persists (IsLost-Persists token) db t id trace others lost)
