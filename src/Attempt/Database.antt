-- ===== src/Attempt/Database.antt =====
-- The table of attempts, as the code uses it through Django's ORM.
--
-- The database is no code of this repository: it is a parameter, an interface with the documented
-- behaviour of the queries that the code makes. Each `update` is one SQL UPDATE and so one step of
-- any interleaving of processes.
use abstract_block_dumper.Prelude.{
  ℕ, ◌≤◌, String, ◌≡◌, ◌≢◌, Bool, true, false, ◌&&◌, Option, none, some, List, All, length, ◌==◌,
  str_eq, if◌then◌else◌,
}
use abstract_block_dumper.Attempt.{TaskAttempt}

-- Whether the row, if there is one, satisfies a WHERE clause.
abbrev pub holds : (TaskAttempt → Bool) → Option TaskAttempt → Bool
holds p none = false
holds p (some r) = p r

-- A row after `UPDATE … SET set WHERE p`.
abbrev pub set_if : (TaskAttempt → Bool) → (TaskAttempt → TaskAttempt) → TaskAttempt → TaskAttempt
set_if p set r = if p r then set r else r

abbrev pub map_row : (TaskAttempt → TaskAttempt) → Option TaskAttempt → Option TaskAttempt
map_row f none = none
map_row f (some r) = some (f r)

-- The unique key of an attempt.
abbrev pub has_key : ℕ → String → String → TaskAttempt → Bool
has_key block path args r =
    block == r.block_number && str_eq path r.executable_path && str_eq args r.args_json

-- A number that is there, and at most, or at least, another.
abbrev pub IsAtMost : Option ℕ → ℕ → Type 0
IsAtMost none n = ⊥
IsAtMost (some m) n = m ≤ n

abbrev pub IsAtLeast : Option ℕ → ℕ → Type 0
IsAtLeast none n = ⊥
IsAtLeast (some m) n = n ≤ m

pub record Database : Type 1 where
  pub Table : Type 0
  -- `filter(id=i).first()`, `refresh_from_db()`
  pub get : Table → ℕ → Option TaskAttempt
  -- `filter(id=i, …).update(…)`: the new table, and the number of rows updated
  pub update : Table → ℕ → (TaskAttempt → Bool) → (TaskAttempt → TaskAttempt) → Table × ℕ
  -- `filter(…).update(…)` over the whole table
  pub update_all : Table → (TaskAttempt → Bool) → (TaskAttempt → TaskAttempt) → Table × ℕ
  -- `filter(block_number=…, executable_path=…, args_json=…).first()`, as an id
  pub find : Table → ℕ → String → String → Option ℕ
  -- `create(…)`: the new table, and the new row's id
  pub create : Table → TaskAttempt → Table × ℕ
  -- `filter(…).order_by(…).values_list("id")[:limit]`: the order is by the number given, then by id
  pub select : Table → (TaskAttempt → Bool) → (TaskAttempt → ℕ) → ℕ → List ℕ
  -- `filter(…).count()`
  pub count : Table → (TaskAttempt → Bool) → ℕ
  -- `filter(…).aggregate(Min(…))` and `Max(…)`, NULL where no row is selected
  pub lowest : Table → (TaskAttempt → Bool) → (TaskAttempt → ℕ) → Option ℕ
  pub highest : Table → (TaskAttempt → Bool) → (TaskAttempt → ℕ) → Option ℕ
  -- An UPDATE changes the rows that its WHERE clause names, and counts them.
  pub get-update :
      (t : Table) (i : ℕ) (p : TaskAttempt → Bool) (set : TaskAttempt → TaskAttempt) (j : ℕ)
      → get (update t i p set).0 j ≡ (if i == j then map_row (set_if p set) (get t j) else get t j)
  pub count-update :
      (t : Table) (i : ℕ) (p : TaskAttempt → Bool) (set : TaskAttempt → TaskAttempt)
      → (update t i p set).1 ≡ (if holds p (get t i) then 1 else 0)
  pub get-update_all :
      (t : Table) (p : TaskAttempt → Bool) (set : TaskAttempt → TaskAttempt) (j : ℕ)
      → get (update_all t p set).0 j ≡ map_row (set_if p set) (get t j)
  -- A query by the key finds a row with that key, if there is one.
  pub find_sound :
      (t : Table) (block : ℕ) (path args : String) (i : ℕ)
      → find t block path args ≡ some i
      → holds (has_key block path args) (get t i) ≡ true
  pub find_complete :
      (t : Table) (block : ℕ) (path args : String) (i : ℕ)
      → holds (has_key block path args) (get t i) ≡ true
      → find t block path args ≢ none
  -- An INSERT adds one row under an id that was free.
  pub get-create :
      (t : Table) (r : TaskAttempt) (j : ℕ)
      → get (create t r).0 j ≡ (if (create t r).1 == j then some r else get t j)
  pub create_free : (t : Table) (r : TaskAttempt) → get t (create t r).1 ≡ none
  -- A SELECT returns ids of rows that satisfy its WHERE clause, at most `limit`.
  pub select_sound :
      (t : Table) (p : TaskAttempt → Bool) (order : TaskAttempt → ℕ) (limit : ℕ)
      → All (λ i. holds p (get t i) ≡ true) (select t p order limit)
  pub select_limit :
      (t : Table) (p : TaskAttempt → Bool) (order : TaskAttempt → ℕ) (limit : ℕ)
      → length (select t p order limit) ≤ limit
  -- A COUNT of 0 means that no row satisfies the WHERE clause.
  pub count_none :
      (t : Table) (p : TaskAttempt → Bool) → count t p ≡ 0 → (i : ℕ) → holds p (get t i) ≡ false
  -- An aggregate bounds the column of each row selected.
  pub lowest_le :
      (t : Table) (p : TaskAttempt → Bool) (column : TaskAttempt → ℕ) (i : ℕ) (r : TaskAttempt)
      → get t i ≡ some r
      → p r ≡ true
      → IsAtMost (lowest t p column) (column r)
  pub le_highest :
      (t : Table) (p : TaskAttempt → Bool) (column : TaskAttempt → ℕ) (i : ℕ) (r : TaskAttempt)
      → get t i ≡ some r
      → p r ≡ true
      → IsAtLeast (highest t p column) (column r)
