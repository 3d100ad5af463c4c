-- ===== src/Examples/Attempts.antt =====
-- Instances of the theorems on attempts.
use abstract_block_dumper.Prelude.{◌≡◌, true, false, none, some, List, ◌∷◌, [], arith, refl}
use abstract_block_dumper.Attempt.{pending, running, success, failed, fresh_attempt, manual}
use abstract_block_dumper.Attempt.Transitions.{Now, claim, finish_success, finish_failure}
use abstract_block_dumper.Attempt.Events.{
  Event, on, by_hand, submit, run, run_event, to_claim, to_finish_success, to_finish_failure,
  to_fail_expired_lease, to_requeue, run_write,
}
use abstract_block_dumper.Attempt.Reopen.{create_or_reopen}
use abstract_block_dumper.Attempt.Changes.{IsRow}
use abstract_block_dumper.Attempt.Lease.{IsHeld, claim_exclusive, lost_claim_fenced}
use abstract_block_dumper.Attempt.Finality.{IsGivenUp, give_up_final}
use abstract_block_dumper.Attempt.Counting.{tries}
use abstract_block_dumper.Attempt.Limit.{IsWithin, Follows, run-IsWithin}
use abstract_block_dumper.Examples.Fixtures.{at, row}
use abstract_block_dumper.Examples.Memory.{Rows, memory, get, update_rows, first_id, free_id}

abbrev waiting : Rows
waiting = (1, row pending none none 0) ∷ []

-- A block is submitted, claimed, fails with a retry, is requeued, claimed again and succeeds.
abbrev life : List (Now × Event)
life =
    (at 10, submit 3 100 "tasks.index" "{}")
    ∷ (at 20, on 1 (to_claim "a" (some 60)))
    ∷ (at 30, on 1 (to_finish_failure "a" (some 5)))
    ∷ (at 31, on 1 (to_requeue "live"))
    ∷ (at 40, on 1 (to_claim "b" (some 60)))
    ∷ (at 41, on 1 (to_claim "c" (some 60)))
    ∷ (at 50, on 1 (to_finish_success "b" (some "1")))
    ∷ []

life_ends : tries (get (run memory [] life) 1) ≡ 2
unfolding run run_event run_write create_or_reopen fresh_attempt get update_rows first_id free_id
life_ends = refl

abbrev quiet : List (Now × Event)
quiet =
    (at 25, on 1 (to_claim "b" (some 60)))
    ∷ (at 30, on 1 (to_fail_expired_lease (some 5)))
    ∷ (at 80, on 1 (to_finish_success "b" none))
    ∷ (at 80, by_hand (λ r. true))
    ∷ []

claim_exclusive_example :
    let claimed = (claim memory (at 20) waiting 1 "a" (some 60)).0 in
    IsRow (IsHeld "a" 80) (get (run memory claimed quiet) 1)
    × ((claim memory (at 200) (run memory claimed quiet) 1 "c" none).1 ≡ false)
unfolding claim get
claim_exclusive_example =
    claim_exclusive memory waiting (at 20) 1 "a" 60 quiet (at 200) "c" none refl (
      (λ e. (omega arith, refl)),
      ((λ e. (omega arith, refl)), ((λ e. (omega arith, refl)), (tt, tt))),
    )

abbrev taken : Rows
taken = (1, row running (some "b") (some 90) 2) ∷ []

lost_claim_fenced_example :
    let later = run memory taken quiet in
    ((finish_success memory (at 95) later 1 "a" none).1 ≡ false)
    × (get (finish_success memory (at 95) later 1 "a" none).0 1 ≡ get later 1)
    × ((finish_failure memory (at 95) later 1 "a" none).1 ≡ false)
    × (get (finish_failure memory (at 95) later 1 "a" none).0 1 ≡ get later 1)
unfolding get
lost_claim_fenced_example =
    lost_claim_fenced memory taken 1 "a" quiet (at 95) none none refl
      ((λ e. refl), ((λ e. refl), ((λ e. refl), (tt, tt))))

abbrev done : Rows
done = (1, row success (some "b") none 2) ∷ []

abbrev stopped : Rows
stopped = (1, record (row failed (some "b") none 2) { give_up_reason = some manual }) ∷ []

give_up_final_example : IsRow (IsGivenUp manual 2) (get (run memory stopped life) 1)
unfolding get
give_up_final_example =
    give_up_final memory stopped 1 manual 2 life
      (record { status = refl; reason_kept = refl; no_retry = refl; tries_kept = refl })

abbrev retried : List (Now × Event)
retried =
    (at 20, on 1 (to_claim "a" (some 60)))
    ∷ (at 30, on 1 (to_finish_failure "a" (some 5)))
    ∷ (at 31, on 1 (to_requeue "live"))
    ∷ (at 40, on 1 (to_claim "b" (some 60)))
    ∷ (at 50, on 1 (to_finish_failure "b" none))
    ∷ []

waiting-IsWithin : IsRow (IsWithin 2) (get waiting 1)
unfolding get
waiting-IsWithin = ground arith

retried-Follows : Follows memory 2 1 waiting retried
unfolding Follows run_event run_write get update_rows
retried-Follows = ((λ e. refl), ((λ e. omega arith), ((λ e. tt), ((λ e. refl), ((λ e. tt), tt)))))

run-IsWithin_example : IsRow (IsWithin 2) (get (run memory waiting retried) 1)
run-IsWithin_example = run-IsWithin memory 2 1 waiting retried retried-Follows waiting-IsWithin
