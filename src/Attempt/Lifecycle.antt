-- ===== src/Attempt/Lifecycle.antt =====
-- The life of an attempt as an operator sees it, and that all writes of all processes follow it.
use abstract_block_dumper.Prelude.{ℕ, suc, ◌≡◌, Bool, true, false, Option, none, some, ◌==◌, ◌⊎◌}
use abstract_block_dumper.Attempt.{
  Status, pending, running, success, failed, GiveUpReason, TaskAttempt,
}
use abstract_block_dumper.Attempt.Database.{Database}

-- Where an attempt stands, with the number of tries so far.
pub data Phase : Type 0 where
  unrecorded : Phase
  queued in_progress executed to_be_retried abandoned : ℕ → Phase

-- The only moves. A try begins by taking a queued attempt, and is counted then; it ends in one of
-- four ways. Nothing leads out of `executed` and `abandoned`.
pub data Step : Phase → Phase → Type 0 where
  submitted : Step unrecorded (queued 0)
  taken : (n : ℕ) → Step (queued n) (in_progress (suc n))
  succeeded : (n : ℕ) → Step (in_progress n) (executed n)
  failed_try : (n : ℕ) → Step (in_progress n) (to_be_retried n)
  failed_last_try : (n : ℕ) → Step (in_progress n) (abandoned n)
  taken_back : (n : ℕ) → Step (in_progress n) (queued n)
  retried : (n : ℕ) → Step (to_be_retried n) (queued n)
  dropped : (n : ℕ) → Step (queued n) (abandoned n)
  dropped_retry : (n : ℕ) → Step (to_be_retried n) (abandoned n)

-- Any number of moves.
pub data Reaches (p : Phase) : Phase → Type 0 where
  here : Reaches p p
  next : {q r : Phase} → Reaches p q → Step q r → Reaches p r

abbrev pub phase_at : Status → Option GiveUpReason → ℕ → Phase
phase_at pending reason n = queued n
phase_at running reason n = in_progress n
phase_at success reason n = executed n
phase_at failed none n = to_be_retried n
phase_at failed (some reason) n = abandoned n

-- The phase of a row, or of none.
unfoldable pub phase : Option TaskAttempt → Phase
phase none = unrecorded
phase (some r) = phase_at r.status r.give_up_reason r.attempt_count

-- One move or none, as a test.
abbrev advances : Phase → Phase → Bool
advances unrecorded unrecorded = true
advances unrecorded (queued m) = m == 0
advances (queued n) (queued m) = m == n
advances (queued n) (in_progress m) = m == suc n
advances (queued n) (abandoned m) = m == n
advances (in_progress n) (in_progress m) = m == n
advances (in_progress n) (executed m) = m == n
advances (in_progress n) (to_be_retried m) = m == n
advances (in_progress n) (abandoned m) = m == n
advances (in_progress n) (queued m) = m == n
advances (executed n) (executed m) = m == n
advances (to_be_retried n) (to_be_retried m) = m == n
advances (to_be_retried n) (queued m) = m == n
advances (to_be_retried n) (abandoned m) = m == n
advances (abandoned n) (abandoned m) = m == n
advances _ _ = false

-- At most one move.
abbrev Moves : Phase → Phase → Type 0
Moves p q = (q ≡ p) ⊎ Step p q
