-- ===== src/Prelude/Texts.antt =====
-- Dictionaries with text keys, as association lists in insertion order.
use Prim.Native.String.{String}
use mathlib.Core.Logic.{◌⊎◌, inl, inr}
use mathlib.Core.Path.{◌≡◌, refl, ap}
use mathlib.Core.Bool.{Bool, true, false, ◌||◌}
use mathlib.Core.Option.{Option, none, some}
use mathlib.Core.List.{List, [], ◌∷◌}
use native.Mathlib.Omega.{arith}
use text.Mathlib.Text.{◌==◌ as str_eq}
use text.Mathlib.TextEquality.{eq_iff}
use text.Mathlib.TextPositions.{eq_refl}
use abstract_block_dumper.Prelude.Tests.{if◌then◌else◌, Bool-cases}
use abstract_block_dumper.Prelude.Lists.{All}

-- `column = value`, as SQL reads it: NULL equals nothing.
abbrev pub col_eq : Option String → String → Bool
col_eq none v = false
col_eq (some u) v = str_eq u v

-- `value in values`
abbrev pub among : String → List String → Bool
among v [] = false
among v (u ∷ us) = str_eq u v || among v us

abbrev pub Dict {ℓ} : Type ℓ → Type ℓ
Dict V = List (String × V)

module _ {ℓ} {V : Type ℓ} where
  -- `d.get(key)`
  unfoldable pub lookup : String → Dict V → Option V
  lookup key [] = none
  lookup key ((name, value) ∷ rest) = if str_eq name key then some value else lookup key rest

  -- `d[key] = new`
  unfoldable pub insert : String → V → Dict V → Dict V
  insert key new [] = (key, new) ∷ []
  insert key new ((name, value) ∷ rest) =
      if str_eq name key then (key, new) ∷ rest else (name, value) ∷ insert key new rest

  -- `d.update(e)`
  unfoldable pub update : Dict V → Dict V → Dict V
  unfolding insert
  update d [] = d
  update d ((key, new) ∷ e) = update (insert key new d) e

  pub lookup-insert :
      (key other : String) (new : V) (d : Dict V)
      → lookup other (insert key new d) ≡ (if str_eq key other then some new else lookup other d)
  unfolding lookup insert
  lookup-insert key other new [] = refl
  lookup-insert key other new ((name, value) ∷ rest) = ground (
    arith,
    lookup-insert key other new rest,
    eq_iff name key,
    eq_iff name other,
    eq_iff key other,
  )

  pub lookup-insert_self :
      (key : String) (new : V) (d : Dict V) → lookup key (insert key new d) ≡ some new
  lookup-insert_self key new d = simp (eq_refl, lookup-insert)

module _ {ℓ} {V : Type ℓ} where
  -- An entry under the key `j` has the value `v`.
  abbrev pub Fixes : String → V → String × V → Type ℓ
  Fixes j v e = e.0 ≡ j → e.1 ≡ v

  pub All-insert :
      (P : String × V → Type ℓ) (k : String) (w : V) (m : Dict V)
      → P (k, w)
      → All P m
      → All P (insert k w m)
  unfolding insert
  All-insert P k w [] h a = (h, a)
  All-insert P k w ((i, u) ∷ m) h a = elim (Bool-cases (str_eq i k)) [
    | inl e ↦ rw e (h, a.1)
    | inr e ↦ rw e (a.0, All-insert P k w m h a.1)
  ]

  -- A later entry under another key, or with the same value, leaves a lookup.
  pub lookup-update :
      (j : String) (v : V) (d e : Dict V)
      → lookup j d ≡ some v
      → All (Fixes j v) e
      → lookup j (update d e) ≡ some v
  unfolding update
  lookup-update j v d [] h a = h
  lookup-update j v d ((k, w) ∷ e) h a =
      lookup-update j v (insert k w d) e (kept (Bool-cases (str_eq k j))) a.1
    where
      kept : (str_eq k j ≡ true) ⊎ (str_eq k j ≡ false) → lookup j (insert k w d) ≡ some v
      kept (inl q) = rw lookup-insert (rw q (ap some (a.0 ((eq_iff k j).0 q))))
      kept (inr q) = rw lookup-insert (rw q h)

  pub lookup-Fixes :
      (j : String) (v w : V) (m : Dict V) → All (Fixes j v) m → lookup j m ≡ some w → w ≡ v
  unfolding lookup
  lookup-Fixes j v w [] a h = cc
  lookup-Fixes j v w ((k, u) ∷ m) a h = elim (Bool-cases (str_eq k j)) [
    | inl q ↦ cc (a.0 ((eq_iff k j).0 q), rw q at h)
    | inr q ↦ lookup-Fixes j v w m a.1 (rw q at h)
  ]
