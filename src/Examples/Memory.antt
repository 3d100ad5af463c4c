-- ===== src/Examples/Memory.antt =====
-- A database in memory: the rows with their ids, in the order of their insertion. It shows that the
-- interface of `Attempt.Database` can be met.
use abstract_block_dumper.Prelude.{
  ℕ, zero, suc, ◌≤◌, ◌≡◌, ◌≢◌, Bool, true, false, Option, none, some, List, ◌∷◌, [], arith, refl,
  if◌then◌else◌, ◌==◌, All, take, length-take-le, min, max, Bool-cases, inl, inr,
}
use abstract_block_dumper.Attempt.{TaskAttempt}
use abstract_block_dumper.Attempt.Database.{
  Database, holds, map_row, set_if, has_key, IsAtMost, IsAtLeast,
}

abbrev pub Rows : Type 0
Rows = List (ℕ × TaskAttempt)

unfoldable pub get : Rows → ℕ → Option TaskAttempt
get [] i = none
get ((k, r) ∷ t) i = if k == i then some r else get t i

unfoldable pub update_rows : Rows → ℕ → (TaskAttempt → Bool) → (TaskAttempt → TaskAttempt) → Rows
update_rows [] i p set = []
update_rows ((k, r) ∷ t) i p set = (k, if i == k then set_if p set r else r) ∷ update_rows t i p set

unfoldable pub update_all_rows : Rows → (TaskAttempt → Bool) → (TaskAttempt → TaskAttempt) → Rows
update_all_rows [] p set = []
update_all_rows ((k, r) ∷ t) p set = (k, set_if p set r) ∷ update_all_rows t p set

unfoldable pub count_rows : Rows → (TaskAttempt → Bool) → ℕ
count_rows [] p = 0
count_rows ((k, r) ∷ t) p = if p r then suc (count_rows t p) else count_rows t p

-- The ids of `keys` whose row in `t` satisfies `p`.
unfoldable pub ids : Rows → (TaskAttempt → Bool) → Rows → List ℕ
ids t p [] = []
ids t p ((k, r) ∷ keys) = if holds p (get t k) then k ∷ ids t p keys else ids t p keys

unfoldable pub first_id : Rows → (TaskAttempt → Bool) → Rows → Option ℕ
first_id t p [] = none
first_id t p ((k, r) ∷ keys) = if holds p (get t k) then some k else first_id t p keys

unfoldable pub free_id : Rows → ℕ
free_id [] = 1
free_id ((k, r) ∷ t) = max (suc k) (free_id t)

pub get-update_rows :
    (t : Rows) (i : ℕ) (p : TaskAttempt → Bool) (set : TaskAttempt → TaskAttempt) (j : ℕ)
    → get (update_rows t i p set) j ≡ (if i == j then map_row (set_if p set) (get t j) else get t j)
unfolding get update_rows
get-update_rows [] i p set j = ground arith
get-update_rows ((k, r) ∷ t) i p set j = ground (arith, get-update_rows t i p set j)

pub get-update_all_rows :
    (t : Rows) (p : TaskAttempt → Bool) (set : TaskAttempt → TaskAttempt) (j : ℕ)
    → get (update_all_rows t p set) j ≡ map_row (set_if p set) (get t j)
unfolding get update_all_rows
get-update_all_rows [] p set j = refl
get-update_all_rows ((k, r) ∷ t) p set j = ground (arith, get-update_all_rows t p set j)

pub first_id_sound :
    (t : Rows) (p : TaskAttempt → Bool) (keys : Rows) (i : ℕ)
    → first_id t p keys ≡ some i
    → holds p (get t i) ≡ true
unfolding first_id
first_id_sound t p [] i h = cc
first_id_sound t p ((k, r) ∷ keys) i h = elim (Bool-cases (holds p (get t k))) [
  | inl e ↦ let same : k ≡ i = cc (rw e at h) in rw (← same) e
  | inr e ↦ first_id_sound t p keys i (rw e at h)
]

-- A row that `get` finds is among the rows that `first_id` looks through.
pub first_id_complete :
    (t : Rows) (p : TaskAttempt → Bool) (keys : Rows) (i : ℕ)
    → get keys i ≢ none
    → holds p (get t i) ≡ true
    → first_id t p keys ≢ none
unfolding first_id get
first_id_complete t p [] i there h e = there refl
first_id_complete t p ((k, r) ∷ keys) i there h e = elim (Bool-cases (holds p (get t k))) [
  | inl q ↦ cc (rw q at e)
  | inr q ↦ first_id_complete t p keys i (λ z. there (ground arith)) h (rw q at e)
]

pub found : (t : Rows) (p : TaskAttempt → Bool) (i : ℕ) → holds p (get t i) ≡ true → get t i ≢ none
found t p i h e = cc (rw e at h)

pub ids_sound :
    (t : Rows) (p : TaskAttempt → Bool) (keys : Rows)
    → All (λ i. holds p (get t i) ≡ true) (ids t p keys)
unfolding ids
ids_sound t p [] = tt
ids_sound t p ((k, r) ∷ keys) = elim (Bool-cases (holds p (get t k))) [
  | inl e ↦ rw e (e, ids_sound t p keys)
  | inr e ↦ rw e (ids_sound t p keys)
]

pub All-take : (P : ℕ → Type 0) (n : ℕ) (xs : List ℕ) → All P xs → All P (take n xs)
All-take P zero xs h = tt
All-take P (suc n) [] h = tt
All-take P (suc n) (x ∷ xs) h = (h.0, All-take P n xs h.1)

pub get_free : (t : Rows) (i : ℕ) → free_id t ≤ i → get t i ≡ none
unfolding get free_id
get_free [] i h = refl
get_free ((k, r) ∷ t) i h = ground (arith, get_free t i)

pub get-insert_row :
    (t : Rows) (k : ℕ) (r : TaskAttempt) (j : ℕ)
    → get ((k, r) ∷ t) j ≡ (if k == j then some r else get t j)
unfolding get
get-insert_row t k r j = refl

pub count_rows_none :
    (t : Rows) (p : TaskAttempt → Bool) → count_rows t p ≡ 0 → (i : ℕ) → holds p (get t i) ≡ false
unfolding count_rows get
count_rows_none [] p e i = refl
count_rows_none ((k, r) ∷ t) p e i = elim (Bool-cases (p r)) [
  | inl y ↦ cc (rw y at e)
  | inr n ↦ elim (Bool-cases (k == i)) [
    | inl same ↦ rw same n
    | inr differs ↦ rw differs (count_rows_none t p (rw n at e) i)
  ]
]

abbrev pub min_with : ℕ → Option ℕ → Option ℕ
min_with a none = some a
min_with a (some b) = some (min a b)

abbrev pub max_with : ℕ → Option ℕ → Option ℕ
max_with a none = some a
max_with a (some b) = some (max a b)

unfoldable pub lowest_row : Rows → (TaskAttempt → Bool) → (TaskAttempt → ℕ) → Option ℕ
lowest_row [] p column = none
lowest_row ((k, r) ∷ t) p column =
    if p r then min_with (column r) (lowest_row t p column) else lowest_row t p column

unfoldable pub highest_row : Rows → (TaskAttempt → Bool) → (TaskAttempt → ℕ) → Option ℕ
highest_row [] p column = none
highest_row ((k, r) ∷ t) p column =
    if p r then max_with (column r) (highest_row t p column) else highest_row t p column

min_with_left : (a : ℕ) (o : Option ℕ) → IsAtMost (min_with a o) a
min_with_left a none = omega arith
min_with_left a (some b) = omega arith

min_with_right : (a n : ℕ) (o : Option ℕ) → IsAtMost o n → IsAtMost (min_with a o) n
min_with_right a n none h = absurd h
min_with_right a n (some b) h = omega (arith, h)

max_with_left : (a : ℕ) (o : Option ℕ) → IsAtLeast (max_with a o) a
max_with_left a none = omega arith
max_with_left a (some b) = omega arith

max_with_right : (a n : ℕ) (o : Option ℕ) → IsAtLeast o n → IsAtLeast (max_with a o) n
max_with_right a n none h = absurd h
max_with_right a n (some b) h = omega (arith, h)

pub lowest_row_le :
    (t : Rows) (p : TaskAttempt → Bool) (column : TaskAttempt → ℕ) (i : ℕ) (r : TaskAttempt)
    → get t i ≡ some r
    → p r ≡ true
    → IsAtMost (lowest_row t p column) (column r)
unfolding get lowest_row
lowest_row_le [] p column i r g h = cc
lowest_row_le ((k, q) ∷ t) p column i r g h = elim (Bool-cases (k == i)) [
  | inl y ↦
      let same : q ≡ r = cc (rw y at g) in
      rw same (rw h (min_with_left (column r) (lowest_row t p column)))
  | inr n ↦ elim (Bool-cases (p q)) [
    | inl z ↦
        rw z (min_with_right (column q) (column r) _ (lowest_row_le t p column i r (rw n at g) h))
    | inr z ↦ rw z (lowest_row_le t p column i r (rw n at g) h)
  ]
]

pub le_highest_row :
    (t : Rows) (p : TaskAttempt → Bool) (column : TaskAttempt → ℕ) (i : ℕ) (r : TaskAttempt)
    → get t i ≡ some r
    → p r ≡ true
    → IsAtLeast (highest_row t p column) (column r)
unfolding get highest_row
le_highest_row [] p column i r g h = cc
le_highest_row ((k, q) ∷ t) p column i r g h = elim (Bool-cases (k == i)) [
  | inl y ↦
      let same : q ≡ r = cc (rw y at g) in
      rw same (rw h (max_with_left (column r) (highest_row t p column)))
  | inr n ↦ elim (Bool-cases (p q)) [
    | inl z ↦
        rw z (max_with_right (column q) (column r) _ (le_highest_row t p column i r (rw n at g) h))
    | inr z ↦ rw z (le_highest_row t p column i r (rw n at g) h)
  ]
]

abbrev pub memory : Database
memory = record {
  Table = Rows;
  get = get;
  update = λ t i p set. (update_rows t i p set, if holds p (get t i) then 1 else 0);
  update_all = λ t p set. (update_all_rows t p set, count_rows t p);
  find = λ t block path args. first_id t (has_key block path args) t;
  create = λ t r. ((free_id t, r) ∷ t, free_id t);
  select = λ t p order limit. take limit (ids t p t);
  count = count_rows;
  lowest = lowest_row;
  highest = highest_row;
  get-update = get-update_rows;
  count-update = λ t i p set. refl;
  get-update_all = get-update_all_rows;
  find_sound = λ t block path args i h. first_id_sound t _ t i h;
  find_complete = λ t block path args i h. first_id_complete t _ t i (found t _ i h) h;
  get-create = λ t r j. get-insert_row t (free_id t) r j;
  create_free = λ t r. get_free t (free_id t) (omega arith);
  select_sound = λ t p order limit. All-take _ limit (ids t p t) (ids_sound t p t);
  select_limit = λ t p order limit. length-take-le limit (ids t p t);
  count_none = count_rows_none;
  lowest_le = lowest_row_le;
  le_highest = le_highest_row;
}
