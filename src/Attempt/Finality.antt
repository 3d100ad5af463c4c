-- ===== src/Attempt/Finality.antt =====
-- Terminal attempts: SUCCESS and a give-up are final.
use abstract_block_dumper.Prelude.{ℕ, ◌≡◌, String, Option, none, some, List, ◌∷◌, [], arith, All}
use abstract_block_dumper.Attempt.{TaskAttempt, success, failed, GiveUpReason}
use abstract_block_dumper.Attempt.Database.{Database}
use abstract_block_dumper.Attempt.Transitions.{Now, expired_message_filter}
use abstract_block_dumper.Attempt.Reads.{is_stuck}
use abstract_block_dumper.Attempt.Events.{Write, to_claim, Event, write_row, run}
use abstract_block_dumper.Attempt.Changes.{IsRow, Allows, run_persists}

-- Executed, with this result, on this many tries.
pub record IsDone (result : Option String) (tries : ℕ) (r : TaskAttempt) : Type 0 where
  pub status : r.status ≡ success
  pub result_kept : r.execution_result ≡ result
  pub tries_kept : r.attempt_count ≡ tries

-- Given up for this reason, after this many tries.
pub record IsGivenUp (reason : GiveUpReason) (tries : ℕ) (r : TaskAttempt) : Type 0 where
  pub status : r.status ≡ failed
  pub reason_kept : r.give_up_reason ≡ some reason
  pub no_retry : r.next_retry_at ≡ none
  pub tries_kept : r.attempt_count ≡ tries

abbrev pub IsAny : Now → Write → Type 0
IsAny now w = Unit

write-IsGivenUp :
    (reason : GiveUpReason) (tries : ℕ) (now : Now) (w : Write) (r : TaskAttempt)
    → IsAny now w
    → IsGivenUp reason tries r
    → IsGivenUp reason tries (write_row now w r)
unfolding write_row expired_message_filter is_stuck
write-IsGivenUp reason tries now (to_claim token lease) r a h = ground arith
write-IsGivenUp reason tries now _ r a h = ground arith

every_event_allowed : (id : ℕ) (trace : List (Now × Event)) → All (Allows IsAny id) trace
every_event_allowed id [] = tt
every_event_allowed id ((now, Event.on i w) ∷ rest) = ((λ e. tt), every_event_allowed id rest)
every_event_allowed id ((now, Event.by_hand scope) ∷ rest) = (tt, every_event_allowed id rest)
every_event_allowed id ((now, Event.submit l b p a) ∷ rest) = (tt, every_event_allowed id rest)

-- An attempt that was given up stays FAILED for the same reason, without a retry time, and is
-- never tried again.
pub give_up_final :
    (db : Database) (t : db.Table) (id : ℕ) (reason : GiveUpReason) (tries : ℕ)
    (trace : List (Now × Event))
    → IsRow (IsGivenUp reason tries) (db.get t id)
    → IsRow (IsGivenUp reason tries) (db.get (run db t trace) id)
give_up_final db t id reason tries trace =
    run_persists
      (record { by_write = write-IsGivenUp reason tries; by_hand_over = λ now r h. ground arith })
      db t id trace (every_event_allowed id trace)
