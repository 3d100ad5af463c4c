-- ===== src/Runner/Laws.antt =====
-- services/task_runner.py: what a worker records, and when it records nothing.
use abstract_block_dumper.Prelude.{
  ℕ, ◌≡◌, ◌≢◌, refl, sym, ap, ◌∙◌, String, Bool, true, false, Option, none, some, List, Bool-cases,
  Option-cases, inl, inr, is_some, Result, returned, raises,
}
use abstract_block_dumper.Attempt.{TaskAttempt, is_pending, is_running}
use abstract_block_dumper.Attempt.Database.{Database, holds, map_row, set_if}
use abstract_block_dumper.Attempt.Transitions.{
  claim, claim_where, claim_set, held_where, success_set, failure_set, finish_success,
  finish_failure, give_up_if_past_deadline,
}
use abstract_block_dumper.Attempt.Results.{transition_result, get-transition, claim_result}
use abstract_block_dumper.Dispatch.{Context, World}
use abstract_block_dumper.Registry.Items.{RegistryItem}
use abstract_block_dumper.Retry.Rules.{RetryDelay, no_retry, retry_in, failure, retry_delay}
use abstract_block_dumper.Settings.{Settings, Read, valid, value_error, lease_seconds}
use abstract_block_dumper.Runner.{
  claimed, Outcome, succeeded, no_result, Delivery, settled, loaded, claim_pending, claim_found,
  claim_attempt, retry_or_report_given_up, fail_with, record_failure, finish_run,
}

abbrev pub is_succeeded : Outcome → Bool
is_succeeded (succeeded result) = true
is_succeeded _ = false

map_row_held :
    (p : TaskAttempt → Bool) (set : TaskAttempt → TaskAttempt) (o : Option TaskAttempt)
    → holds p o ≡ true
    → map_row (set_if p set) o ≡ map_row set o
map_row_held p set none h = refl
map_row_held p set (some r) h = rw h refl

loaded-claimed :
    (id : ℕ) (o : Option TaskAttempt) (id' : ℕ) (r : TaskAttempt)
    → loaded id o ≡ claimed id' r
    → (id ≡ id') × (o ≡ some r)
loaded-claimed id none id' r h = cc
loaded-claimed id (some q) id' r h = (cc, cc)

settled_no_claim : (o : Option TaskAttempt) (id : ℕ) (r : TaskAttempt) → settled o ≢ claimed id r
settled_no_claim none id r h = cc
settled_no_claim (some q) id r h = elim (Bool-cases (is_running q.status)) [
  | inl y ↦ cc (rw y at h)
  | inr n ↦ cc (rw n at h)
]

module _ (db : Database) where
  open db use {Table, get, find}

  fail_with_lost :
      (ctx : Context) (functions : List RegistryItem) (w : World db) (id : ℕ) (d : Delivery)
      (delay : Option ℕ)
      → holds (held_where d.claim_token) (get w.0 id) ≡ false
      → fail_with db ctx functions w id d delay ≡ (w, no_result)
  unfolding fail_with finish_failure
  fail_with_lost ctx functions w id d delay h =
      rw (transition_result db w.0 id (held_where d.claim_token) (failure_set ctx.now delay) ∙ h)
        refl

  record_failure_lost :
      (ctx : Context) (functions : List RegistryItem) (w : World db) (id : ℕ) (d : Delivery)
      (delay : RetryDelay)
      → holds (held_where d.claim_token) (get w.0 id) ≡ false
      → ((record_failure db ctx functions w id d delay).0 ≡ w)
        × (is_succeeded (record_failure db ctx functions w id d delay).1 ≡ false)
  unfolding record_failure
  record_failure_lost ctx functions w id d no_retry h =
      rw (fail_with_lost ctx functions w id d none h) (refl, refl)
  record_failure_lost ctx functions w id d (retry_in delay) h =
      rw (fail_with_lost ctx functions w id d (some delay) h) (refl, refl)
  record_failure_lost ctx functions w id d failure h = (refl, refl)

  -- A worker that no longer holds the attempt when its function ends, however that ended, changes no
  -- row, sends no message and reports no success.
  pub finish_run_lost :
      (ctx : Context) (functions : List RegistryItem) (w : World db) (id : ℕ) (r : TaskAttempt)
      (d : Delivery) (commits : Bool) (result : Result (Option String))
      → holds (held_where d.claim_token) (get w.0 id) ≡ false
      → ((finish_run db ctx functions w id r d commits result).0 ≡ w)
        × (is_succeeded (finish_run db ctx functions w id r d commits result).1 ≡ false)
  unfolding finish_run finish_success
  finish_run_lost ctx functions w id r d true (returned v) h =
      rw (transition_result db w.0 id (held_where d.claim_token) (success_set ctx.now v) ∙ h)
        (refl, refl)
  finish_run_lost ctx functions w id r d true raises h =
      record_failure_lost ctx functions w id d _ h
  finish_run_lost ctx functions w id r d false (returned v) h =
      record_failure_lost ctx functions w id d _ h
  finish_run_lost ctx functions w id r d false raises h =
      record_failure_lost ctx functions w id d _ h

  retry_or_report_fails :
      (ctx : Context) (functions : List RegistryItem) (w : World db) (id : ℕ) (use_archive : Bool)
      (o : Option TaskAttempt)
      → is_succeeded (retry_or_report_given_up db ctx functions w id use_archive o).1 ≡ false
  unfolding retry_or_report_given_up
  retry_or_report_fails ctx functions w id use_archive none = refl
  retry_or_report_fails ctx functions w id use_archive (some r) =
      elim (Bool-cases (is_some r.give_up_reason)) [ inl y ↦ rw y refl | inr n ↦ rw n refl ]

  fail_with_fails :
      (ctx : Context) (functions : List RegistryItem) (w : World db) (id : ℕ) (d : Delivery)
      (delay : Option ℕ)
      → is_succeeded (fail_with db ctx functions w id d delay).1 ≡ false
  unfolding fail_with
  fail_with_fails ctx functions w id d delay =
      elim (Bool-cases (finish_failure db ctx.now w.0 id d.claim_token delay).1) [
        | inl y ↦ rw y (retry_or_report_fails ctx functions (_, w.1) id d.use_archive _)
        | inr n ↦ rw n refl
      ]

  record_failure_fails :
      (ctx : Context) (functions : List RegistryItem) (w : World db) (id : ℕ) (d : Delivery)
      (delay : RetryDelay)
      → is_succeeded (record_failure db ctx functions w id d delay).1 ≡ false
  unfolding record_failure
  record_failure_fails ctx functions w id d no_retry = fail_with_fails ctx functions w id d none
  record_failure_fails ctx functions w id d (retry_in delay) =
      fail_with_fails ctx functions w id d (some delay)
  record_failure_fails ctx functions w id d failure = refl

  -- When success is reported, the function returned, its transaction commits and the worker still
  -- holds the attempt; the row is then SUCCESS with the result, and no message is sent.
  pub finish_run_succeeded :
      (ctx : Context) (functions : List RegistryItem) (w : World db) (id : ℕ) (r : TaskAttempt)
      (d : Delivery) (commits : Bool) (result : Result (Option String)) (v : Option String)
      → (finish_run db ctx functions w id r d commits result).1 ≡ succeeded v
      → (commits ≡ true)
        × (result ≡ returned v)
        × (holds (held_where d.claim_token) (get w.0 id) ≡ true)
        × (get (finish_run db ctx functions w id r d commits result).0.0 id
            ≡ map_row (success_set ctx.now v) (get w.0 id))
        × ((finish_run db ctx functions w id r d commits result).0.1 ≡ w.1)
  unfolding finish_run finish_success
  finish_run_succeeded ctx functions w id r d true (returned u) v h =
      let won = transition_result db w.0 id (held_where d.claim_token) (success_set ctx.now u) in
      elim (Bool-cases (holds (held_where d.claim_token) (get w.0 id))) [
        | inl y ↦
            let same : u ≡ v = cc (rw (won ∙ y) at h) in
            rw (won ∙ y) (
              refl,
              ap returned same,
              y,
              get-transition db w.0 id _ _
                  ∙ map_row_held _ _ (get w.0 id) y
                  ∙ ap (λ x. map_row (success_set ctx.now x) (get w.0 id)) same,
              refl,
            )
        | inr n ↦ cc (rw (won ∙ n) at h)
      ]
  finish_run_succeeded ctx functions w id r d true raises v h =
      cc (h, record_failure_fails ctx functions w id d (retry_delay ctx.rules r))
  finish_run_succeeded ctx functions w id r d false (returned u) v h =
      cc (h, record_failure_fails ctx functions w id d (retry_delay ctx.rules r))
  finish_run_succeeded ctx functions w id r d false raises v h =
      cc (h, record_failure_fails ctx functions w id d (retry_delay ctx.rules r))

  get-claim :
      (ctx : Context) (t : Table) (d : Delivery) (id : ℕ) (lease : Option ℕ)
      → holds (claim_where ctx.now) (get t id) ≡ true
      → get (claim db ctx.now t id d.claim_token lease).0 id
        ≡ map_row (claim_set ctx.now d.claim_token lease) (get t id)
  unfolding claim
  get-claim ctx t d id lease h =
      get-transition db t id (claim_where ctx.now) (claim_set ctx.now d.claim_token lease)
      ∙ map_row_held (claim_where ctx.now) (claim_set ctx.now d.claim_token lease) (get t id) h

  -- The claimed row: it could be claimed, and now carries the token, the lease and one more try.
  abbrev pub IsClaim : Context → Table → Delivery → Option ℕ → ℕ → TaskAttempt → Table → Type 0
  IsClaim ctx t d lease id r t' =
      (holds (claim_where ctx.now) (get t id) ≡ true)
      × (some r ≡ map_row (claim_set ctx.now d.claim_token lease) (get t id))
      × (get t' id ≡ some r)

  claim_pending-IsClaim :
      (ctx : Context) (t : Table) (d : Delivery) (id : ℕ) (lease : Option ℕ) (id' : ℕ)
      (r : TaskAttempt)
      → (claim_pending db ctx t d id lease).1 ≡ claimed id' r
      → (id ≡ id') × IsClaim ctx t d lease id r (claim_pending db ctx t d id lease).0
  unfolding claim_pending
  claim_pending-IsClaim ctx t d id lease id' r h =
      let won = claim_result db ctx.now t id d.claim_token lease in
      elim (Bool-cases (holds (claim_where ctx.now) (get t id))) [
        | inl y ↦
            let l = loaded-claimed id _ id' r (rw (won ∙ y) at h) in
            rw (won ∙ y) (l.0, (y, sym l.1 ∙ get-claim ctx t d id lease y, l.1))
        | inr n ↦
            elim (Bool-cases
              (give_up_if_past_deadline db ctx.now (claim db ctx.now t id d.claim_token lease).0
                id).1) [
                  | inl g ↦ cc (rw (won ∙ n, g) at h)
                  | inr g ↦ absurd (settled_no_claim _ id' r (rw (won ∙ n, g) at h))
                ]
      ]

  claim_found-IsClaim :
      (ctx : Context) (t : Table) (d : Delivery) (id : ℕ) (o : Option TaskAttempt)
      (lease : Read (Option ℕ)) (id' : ℕ) (r : TaskAttempt)
      → (claim_found db ctx t d id o lease).1 ≡ claimed id' r
      → (l : Option ℕ) × (lease ≡ valid l)
        × (id ≡ id')
        × IsClaim ctx t d l id r (claim_found db ctx t d id o lease).0
  unfolding claim_found
  claim_found-IsClaim ctx t d id none lease id' r h = cc
  claim_found-IsClaim ctx t d id (some q) value_error id' r h =
      elim (Bool-cases (is_pending q.status)) [
        | inl y ↦ cc (rw y at h)
        | inr n ↦ absurd (settled_no_claim (some q) id' r (rw n at h))
      ]
  claim_found-IsClaim ctx t d id (some q) (valid lease) id' r h =
      elim (Bool-cases (is_pending q.status)) [
        | inl y ↦
            let c = claim_pending-IsClaim ctx t d id lease id' r (rw y at h) in
            rw y (lease, refl, c.0, c.1)
        | inr n ↦ absurd (settled_no_claim (some q) id' r (rw n at h))
      ]

  -- A worker runs its function only for an attempt that it claimed: the row was PENDING before its
  -- give-up deadline, and it now is RUNNING with the worker's token, the lease that the settings give
  -- for its time limit, and one more try.
  pub claim_attempt_claims :
      (s : Settings) (ctx : Context) (t : Table) (d : Delivery) (id : ℕ) (r : TaskAttempt)
      → (claim_attempt db s ctx t d).1 ≡ claimed id r
      → (l : Option ℕ) × (lease_seconds s d.time_limit ≡ valid l)
        × IsClaim ctx t d l id r (claim_attempt db s ctx t d).0
  unfolding claim_attempt
  claim_attempt_claims s ctx t d id r h =
      elim (Option-cases (find t d.block_number d.executable_path d.args_json)) [
        | inl e ↦ cc (rw (claim_attempt, e) at h)
        | inr (id', e) ↦
            let c =
              claim_found-IsClaim ctx t d id' (get t id') (lease_seconds s d.time_limit) id r
                (rw (claim_attempt, e) at h) in
            rw (claim_attempt, e) (c.0, c.1, rw (← c.2) c.3)
      ]
