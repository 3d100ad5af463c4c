-- ===== src/Registry/Dumper/Accepted.antt =====
-- _internal/dal/dumper_registry.py: the queues of an accepted registration are found by name.
use abstract_block_dumper.Prelude.{
  ℕ, ◌≡◌, ◌≢◌, refl, sym, subst, ◌∙◌, ap, String, false, Option, none, some, List, ◌∷◌, [], Dict,
  insert, lookup, lookup-insert, lookup-insert_self, Fixes, All-insert, lookup-update, update,
  str_eq, eq_iff, All, Bool-cases, inl, inr,
}
use abstract_block_dumper.Queue.{Queue}
use abstract_block_dumper.Registry.Dumper.{
  DumperRegistry, Outcome, registered, app_has_dumper, different_settings, other_owner, scan, Scan,
  all_accepted, stopped, register_queues, get_queue, record_accepted, or_queue, differs,
  belongs_to_other,
}
use abstract_block_dumper.Registry.Dumper.Laws.{not_differs}

module _ {ℓ} {V : Type ℓ} where
  -- Each key has one value.
  IsFunctional : Dict V → Type ℓ
  IsFunctional d = (j : String) (v : V) → lookup j d ≡ some v → All (Fixes j v) d

  absent-Fixes : (j : String) (v : V) (d : Dict V) → lookup j d ≡ none → All (Fixes j v) d
  unfolding lookup
  absent-Fixes j v [] h = tt
  absent-Fixes j v ((k, u) ∷ d) h = elim (Bool-cases (str_eq k j)) [
    | inl y ↦ cc (rw y at h)
    | inr n ↦ (λ e. cc ((eq_iff k j).1 e), absent-Fixes j v d (rw n at h))
  ]

  -- A value that replaces none but itself.
  insert-Fixes :
      (k : String) (w : V) (d : Dict V) (o : Option V)
      → lookup k d ≡ o
      → ((v : V) → o ≡ some v → w ≡ v)
      → IsFunctional d
      → All (Fixes k w) (insert k w d)
  unfolding IsFunctional
  insert-Fixes k w d none e h f = All-insert (Fixes k w) k w d (λ p. refl) (absent-Fixes k w d e)
  insert-Fixes k w d (some v) e h f =
      All-insert (Fixes k w) k w d (λ p. refl) (f k w (e ∙ ap some (sym (h v refl))))

  insert-IsFunctional :
      (k : String) (w : V) (d : Dict V)
      → ((v : V) → lookup k d ≡ some v → w ≡ v)
      → IsFunctional d
      → IsFunctional (insert k w d)
  unfolding IsFunctional
  insert-IsFunctional k w d h f j v e = elim (Bool-cases (str_eq k j)) [
    | inl y ↦
        let same : k ≡ j = (eq_iff k j).0 y in
        let value : w ≡ v = cc (rw (lookup-insert, y) at e) in
        subst (λ i. All (Fixes i v) (insert k w d)) same
          (subst (λ u. All (Fixes k u) (insert k w d)) value
            (insert-Fixes k w d (lookup k d) refl h f))
    | inr n ↦
        All-insert (Fixes j v) k w d (λ p. cc ((eq_iff k j).1 p))
          (f j v (rw (lookup-insert, n) at e))
  ]

module _ (g : DumperRegistry) (dumper : ℕ) where
  -- A scan that accepts has accepted its first queue.
  scan_step :
      (acc : Dict Queue) (p : Queue) (rest : List Queue) {out : Dict Queue}
      → scan g dumper acc (p ∷ rest) ≡ all_accepted out
      → (differs (or_queue (lookup p.name acc) (lookup p.name g.queues)) p ≡ false)
        × (scan g dumper (insert p.name p acc) rest ≡ all_accepted out)
  unfolding scan
  scan_step acc p rest e =
      elim (Bool-cases (differs (or_queue (lookup p.name acc) (lookup p.name g.queues)) p)) [
        | inl c ↦ cc (rw c at e)
        | inr c ↦ elim (Bool-cases (belongs_to_other (lookup p.name g.queue_owners) dumper)) [
          | inl o ↦ cc (rw (c, o) at e)
          | inr o ↦ (c, rw (c, o) at e)
        ]
      ]

  replaces_itself :
      (acc : Dict Queue) (p : Queue)
      → differs (or_queue (lookup p.name acc) (lookup p.name g.queues)) p ≡ false
      → (v : Queue) → lookup p.name acc ≡ some v
      → p ≡ v
  replaces_itself acc p d v e = not_differs (some v) v p refl (rw e at d)

  scan-IsFunctional :
      (acc : Dict Queue) (queues : List Queue) {out : Dict Queue}
      → IsFunctional acc
      → scan g dumper acc queues ≡ all_accepted out
      → IsFunctional out
  unfolding scan
  scan-IsFunctional acc [] {out} f e = let same : acc ≡ out = cc in subst IsFunctional same f
  scan-IsFunctional acc (p ∷ rest) f e =
      let (d, e') = scan_step acc p rest e in
      scan-IsFunctional (insert p.name p acc) rest
        (insert-IsFunctional p.name p acc (replaces_itself acc p d) f) e'

  scan_keeps :
      (acc : Dict Queue) (queues : List Queue) (j : String) (q : Queue) {out : Dict Queue}
      → lookup j acc ≡ some q
      → scan g dumper acc queues ≡ all_accepted out
      → lookup j out ≡ some q
  unfolding scan
  scan_keeps acc [] j q {out} h e =
      let same : acc ≡ out = cc in subst (λ d. lookup j d ≡ some q) same h
  scan_keeps acc (p ∷ rest) j q h e =
      let (d, e') = scan_step acc p rest e in
      scan_keeps (insert p.name p acc) rest j q
        (elim (Bool-cases (str_eq p.name j)) [
          | inl y ↦
              let same : p.name ≡ j = (eq_iff p.name j).0 y in
              let equal : p ≡ q =
                replaces_itself acc p d q (subst (λ i. lookup i acc ≡ some q) (sym same) h) in
              rw lookup-insert (rw y (ap some equal))
          | inr n ↦ rw lookup-insert (rw n h)
        ])
        e'

  scan_finds :
      (acc : Dict Queue) (queues : List Queue) {out : Dict Queue}
      → scan g dumper acc queues ≡ all_accepted out
      → All (λ q. lookup q.name out ≡ some q) queues
  scan_finds acc [] e = tt
  scan_finds acc (p ∷ rest) e =
      let (d, e') = scan_step acc p rest e in
      (
        scan_keeps (insert p.name p acc) rest p.name p (lookup-insert_self p.name p acc) e',
        scan_finds (insert p.name p acc) rest e',
      )

lookup-update_found {ℓ} :
    {V : Type ℓ} (j : String) (v : V) (d e : Dict V)
    → lookup j e ≡ some v
    → All (Fixes j v) e
    → lookup j (update d e) ≡ some v
unfolding update lookup
lookup-update_found j v d [] h a = cc
lookup-update_found j v d ((k, w) ∷ e) h a = elim (Bool-cases (str_eq k j)) [
  | inl y ↦
      lookup-update j v (insert k w d) e
        (rw lookup-insert (rw y (ap some (a.0 ((eq_iff k j).0 y))))) a.1
  | inr n ↦ lookup-update_found j v (insert k w d) e (rw n at h) a.1
]

-- The registry after a registration that was accepted.
found_by_name :
    (g : DumperRegistry) (dumper : ℕ) (queues checked : List Queue) (out : Dict Queue)
    → IsFunctional out
    → All (λ q. lookup q.name out ≡ some q) checked
    → All (λ q. lookup q.name (update g.queues out) ≡ some q) checked
unfolding IsFunctional
found_by_name g dumper queues [] out f a = tt
found_by_name g dumper queues (q ∷ rest) out f a = (
  lookup-update_found q.name q g.queues out a.0 (f q.name q a.0),
  found_by_name g dumper queues rest out f a.1,
)

-- A scan that stops names a conflict.
stopped_conflict :
    (g : DumperRegistry) (dumper : ℕ) (acc : Dict Queue) (queues : List Queue)
    → scan g dumper acc queues ≢ stopped registered
unfolding scan
stopped_conflict g dumper acc [] e = cc
stopped_conflict g dumper acc (p ∷ rest) e =
    elim (Bool-cases (differs (or_queue (lookup p.name acc) (lookup p.name g.queues)) p)) [
      | inl c ↦ cc (rw c at e)
      | inr c ↦ elim (Bool-cases (belongs_to_other (lookup p.name g.queue_owners) dumper)) [
        | inl o ↦ cc (rw (c, o) at e)
        | inr o ↦ stopped_conflict g dumper (insert p.name p acc) rest (rw (c, o) at e)
      ]
    ]

-- After a registration that came to the outcome: each queue is found by its name, or, on a conflict,
-- nothing has changed.
unfoldable pub Found : DumperRegistry → List Queue → DumperRegistry → Outcome → Type 0
Found g queues g' registered = All (λ q. get_queue g' (some q.name) ≡ some q) queues
Found g queues g' app_has_dumper = g' ≡ g
Found g queues g' different_settings = g' ≡ g
Found g queues g' other_owner = g' ≡ g

record_accepted-Found :
    (g : DumperRegistry) (dumper : ℕ) (queues : List Queue) (s : Scan)
    → scan g dumper [] queues ≡ s
    → Found g queues (record_accepted g dumper s).0 (record_accepted g dumper s).1
unfolding get_queue Found IsFunctional
record_accepted-Found g dumper queues (all_accepted out) e =
    found_by_name g dumper queues queues out (scan-IsFunctional g dumper [] queues (λ j v h. tt) e)
      (scan_finds g dumper [] queues e)
record_accepted-Found g dumper queues (stopped registered) e =
    absurd (stopped_conflict g dumper [] queues e)
record_accepted-Found g dumper queues (stopped app_has_dumper) e = refl
record_accepted-Found g dumper queues (stopped different_settings) e = refl
record_accepted-Found g dumper queues (stopped other_owner) e = refl

pub register_queues-Found :
    (g : DumperRegistry) (dumper : ℕ) (queues : List Queue)
    → Found g queues (register_queues g dumper queues).0 (register_queues g dumper queues).1
unfolding register_queues
register_queues-Found g dumper queues = record_accepted-Found g dumper queues _ refl
