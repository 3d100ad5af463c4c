-- ===== src/Attempt/Results.antt =====
-- What a transition returns, and what it does to the rows.
use abstract_block_dumper.Prelude.{
  ℕ, ◌≡◌, String, Bool, Option, ==-refl, Bool-cases, inl, inr, refl,
}
use abstract_block_dumper.Attempt.{TaskAttempt}
use abstract_block_dumper.Attempt.Database.{Database, holds, set_if, map_row}
use abstract_block_dumper.Attempt.Transitions.{Now, transition, claim, claim_where}

module _ (db : Database) where
  open db use {Table, get, get-update, count-update}

  -- A transition reports whether the row satisfied its WHERE clause.
  pub transition_result :
      (t : Table) (i : ℕ) (p : TaskAttempt → Bool) (set : TaskAttempt → TaskAttempt)
      → (transition db t i p set).1 ≡ holds p (get t i)
  transition_result t i p set = elim (Bool-cases (holds p (get t i))) [
    | inl e ↦ rw count-update (rw e refl)
    | inr e ↦ rw count-update (rw e refl)
  ]

  pub get-transition :
      (t : Table) (i : ℕ) (p : TaskAttempt → Bool) (set : TaskAttempt → TaskAttempt)
      → get (transition db t i p set).0 i ≡ map_row (set_if p set) (get t i)
  get-transition t i p set = rw get-update (rw (==-refl i))

  pub claim_result :
      (now : Now) (t : Table) (id : ℕ) (token : String) (lease : Option ℕ)
      → (claim db now t id token lease).1 ≡ holds (claim_where now) (get t id)
  unfolding claim
  claim_result now t id token lease = transition_result t id _ _
