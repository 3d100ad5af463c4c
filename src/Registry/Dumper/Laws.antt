-- ===== src/Registry/Dumper/Laws.antt =====
-- One queue name means one policy and one owner across the process.
use abstract_block_dumper.Prelude.{
  ℕ, ◌≡◌, refl, sym, subst, ◌∙◌, String, true, false, Option, none, some, List, ◌∷◌, [], Dict,
  insert, lookup, Fixes, All-insert, lookup-update, lookup-Fixes, eq_iff, arith, All, Bool-cases,
  Option-cases, inl, inr,
}
use abstract_block_dumper.Queue.{Queue}
use abstract_block_dumper.Registry.Dumper.{
  DumperRegistry, same_queue, scan, Scan, all_accepted, stopped, register_queues, get_queue,
  record_accepted, or_queue, differs, belongs_to_other,
}

same_queue-eq : (p q : Queue) → same_queue p q ≡ true → p ≡ q
unfolding same_queue
same_queue-eq p q h = ground (arith, eq_iff p.name q.name)

-- A conflict test that a queue passed.
pub not_differs : (o : Option Queue) (p q : Queue) → o ≡ some p → differs o q ≡ false → q ≡ p
not_differs none p q e h = cc
not_differs (some r) p q e h = ground (arith, same_queue-eq r q)

-- A queue that the conflict test lets pass is the queue that its name already stands for.
no_conflict :
    (g : DumperRegistry) (acc : Dict Queue) (name : String) (p q : Queue)
    → lookup name g.queues ≡ some q
    → All (Fixes name q) acc
    → differs (or_queue (lookup name acc) (lookup name g.queues)) p ≡ false
    → p ≡ q
no_conflict g acc name p q h a d = elim (Option-cases (lookup name acc)) [
  | inl e ↦ not_differs _ q p h (rw e at d)
  | inr (r, e) ↦ not_differs (some r) r p refl (rw e at d) ∙ lookup-Fixes name q r acc a e
]

-- What the scan accepts leaves the queue `q` under its name `j`, if it stood there before.
scan-Fixes :
    (g : DumperRegistry) (dumper : ℕ) (acc : Dict Queue) (queues : List Queue) (j : String)
    (q : Queue) {out : Dict Queue}
    → lookup j g.queues ≡ some q
    → All (Fixes j q) acc
    → scan g dumper acc queues ≡ all_accepted out
    → All (Fixes j q) out
unfolding scan
scan-Fixes g dumper acc [] j q {out} h a e =
    let same_dict : acc ≡ out = cc in subst (All (Fixes j q)) same_dict a
scan-Fixes g dumper acc (p ∷ rest) j q h a e =
    elim (Bool-cases (differs (or_queue (lookup p.name acc) (lookup p.name g.queues)) p)) [
      | inl c ↦ cc (rw c at e)
      | inr c ↦ elim (Bool-cases (belongs_to_other (lookup p.name g.queue_owners) dumper)) [
        | inl o ↦ cc (rw (c, o) at e)
        | inr o ↦
            scan-Fixes g dumper (insert p.name p acc) rest j q h
              (All-insert (Fixes j q) p.name p acc
                (λ n.
                  no_conflict g acc p.name p q (subst (λ k. lookup k g.queues ≡ some q) (sym n) h)
                    (subst (λ k. All (Fixes k q) acc) (sym n) a) c)
                a)
              (rw (c, o) at e)
      ]
    ]

recorded_stable :
    (g : DumperRegistry) (dumper : ℕ) (name : String) (q : Queue) (found : Scan)
    → lookup name g.queues ≡ some q
    → ((out : Dict Queue) → found ≡ all_accepted out → All (Fixes name q) out)
    → lookup name (record_accepted g dumper found).0.queues ≡ some q
recorded_stable g dumper name q (stopped e) h fixed = h
recorded_stable g dumper name q (all_accepted out) h fixed =
    lookup-update name q g.queues out h (fixed out refl)

-- A queue name keeps its meaning: whatever is registered later, by whichever dumper and with
-- whatever outcome, the name still stands for the same queue with the same settings.
pub register_queues_stable :
    (g : DumperRegistry) (dumper : ℕ) (queues : List Queue) (name : String) (q : Queue)
    → get_queue g (some name) ≡ some q
    → get_queue (register_queues g dumper queues).0 (some name) ≡ some q
unfolding get_queue register_queues
register_queues_stable g dumper queues name q h =
    recorded_stable g dumper name q _ h (λ out e. scan-Fixes g dumper [] queues name q h tt e)
