-- ===== src/Attempt/Reopen.antt =====
-- `create_or_reopen` of _internal/dal/attempt_transitions.py.
use abstract_block_dumper.Prelude.{
  ℕ, String, Bool, true, false, ◌&&◌, ◌||◌, Option, none, some, col_le, is_none, if◌then◌else◌,
}
use abstract_block_dumper.Attempt.{TaskAttempt, is_failed, fresh_attempt}
use abstract_block_dumper.Attempt.Database.{Database}
use abstract_block_dumper.Attempt.Transitions.{Now, retry_where, reopen_set}
use abstract_block_dumper.Attempt.Reads.{can_run_again}

module _ (db : Database) where
  open db use {Table}

  -- `get_or_create(…)`, in the transaction of its caller: the table, the id and whether it was created.
  unfoldable pub get_or_create : Now → Table → ℕ → String → String → Table × ℕ × Bool
  get_or_create now t block path args = elim (db.find t block path args) [
    | some id ↦ (t, id, false)
    | none ↦ let (t', id) = db.create t (fresh_attempt now.local block path args) in (t', id, true)
  ]

  -- The loaded row may be sent again now.
  unfoldable pub may_reopen : Now → ℕ → TaskAttempt → Bool
  may_reopen now max_attempt_limit r =
      is_failed r.status
      && can_run_again max_attempt_limit r
      && (is_none r.next_retry_at || col_le r.next_retry_at now.local)

  abbrev pub reopen : Now → ℕ → Table → ℕ → Option TaskAttempt → Table
  reopen now max_attempt_limit t id none = t
  reopen now max_attempt_limit t id (some r) =
      if may_reopen now max_attempt_limit r
      then (db.update t id retry_where (reopen_set now)).0
      else t

  -- The attempt's id, and whether it was created.
  unfoldable pub create_or_reopen : Now → Table → ℕ → ℕ → String → String → Table × ℕ × Bool
  unfolding get_or_create may_reopen
  create_or_reopen now t max_attempt_limit block path args =
      let (t', id, created) = get_or_create now t block path args in
      if created
      then (t', id, true)
      else (reopen now max_attempt_limit t' id (db.get t' id), id, false)
