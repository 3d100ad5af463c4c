-- ===== src/Attempt/Counting.antt =====
-- Tries: every execution is counted once, and a limit on tries is kept.
use abstract_block_dumper.Prelude.{
  ℕ, ◌+◌, Bool, true, false, ◌&&◌, Option, none, some, List, ◌∷◌, [], if◌then◌else◌, ◌==◌,
}
use abstract_block_dumper.Attempt.{TaskAttempt}
use abstract_block_dumper.Attempt.Database.{Database}
use abstract_block_dumper.Attempt.Transitions.{Now, claim}
use abstract_block_dumper.Attempt.Events.{Write, to_claim, Event, on, run_event}

-- The tries of a row; an attempt that does not exist has none.
abbrev pub tries : Option TaskAttempt → ℕ
tries none = 0
tries (some r) = r.attempt_count

module _ (db : Database) where
  open db use {Table, get}

  -- 1 for a claim of the attempt that a worker won.
  abbrev pub won : Now → Table → ℕ → Event → ℕ
  won now t id (on i (to_claim token lease)) =
      if i == id && (claim db now t i token lease).1 then 1 else 0
  won now t id _ = 0

  -- The claims of the attempt that were won along a trace.
  unfoldable pub claims_won : Table → ℕ → List (Now × Event) → ℕ
  claims_won t id [] = 0
  claims_won t id ((now, e) ∷ rest) = won now t id e + claims_won (run_event db now t e) id rest

  abbrev is_claim : Write → Bool
  is_claim (to_claim token lease) = true
  is_claim _ = false

  -- The events but for a claim leave the number of tries.
  abbrev claims_row : Event → Bool
  claims_row (on i w) = is_claim w
  claims_row _ = false
