-- ===== src/TimeLimits/Laws.antt =====
-- services/time_limits.py: the default hard limit, and what the check accepts.
use abstract_block_dumper.Prelude.{
  ℕ, zero, suc, ◌+◌, ◌≤◌, ◌<◌, ◌≡◌, String, true, false, Option, none, some, List, ◌∷◌, [], Dict,
  arith, All, Bool-cases, inl, inr,
}
use abstract_block_dumper.Queue.{Queue}
use abstract_block_dumper.Settings.{Settings}
use abstract_block_dumper.TimeLimits.{
  TaskOptions, conflicts, by_name, any_conflict, first_set, task_soft, task_hard, check_time_limits,
}

-- A limit that is set lies at least `margin` below `hard`.
abbrev pub IsBelow : ℕ → ℕ → Option ℕ → Type 0
IsBelow margin hard none = Unit
IsBelow margin hard (some zero) = Unit
IsBelow margin hard (some (suc n)) = suc n + margin ≤ hard

-- The limits that a worker applies to a message of the queue: the soft one fires first.
abbrev pub IsOrdered : Option ℕ → Option ℕ → Type 0
IsOrdered (some soft) (some hard) = soft < hard
IsOrdered _ _ = Unit

conflicts-IsOrdered : (soft hard : Option ℕ) → conflicts soft hard ≡ false → IsOrdered soft hard
conflicts-IsOrdered none hard h = tt
conflicts-IsOrdered (some soft) none h = tt
conflicts-IsOrdered (some soft) (some hard) h = ground arith

any_conflict-IsOrdered :
    (soft hard : Option ℕ) (d : Dict Queue)
    → any_conflict soft hard d ≡ false
    → All
        (λ (e : String × Queue).
          IsOrdered (first_set e.1.soft_time_limit soft) (first_set e.1.time_limit hard))
        d
      × IsOrdered soft hard
any_conflict-IsOrdered soft hard [] h = (tt, conflicts-IsOrdered soft hard h)
any_conflict-IsOrdered soft hard ((name, q) ∷ rest) h =
    elim (Bool-cases (conflicts (first_set q.soft_time_limit soft) (first_set q.time_limit hard))) [
      | inl y ↦ cc (rw y at h)
      | inr n ↦
          let r = any_conflict-IsOrdered soft hard rest (rw n at h) in
          ((conflicts-IsOrdered _ _ n, r.0), r.1)
    ]

-- A task that the check accepts has its soft limit below its hard limit in the messages of each of
-- its queues and in messages without queue limits, wherever both limits come from.
pub check_time_limits-IsOrdered :
    (o : TaskOptions) (queues : List Queue) (default : Option ℕ)
    → check_time_limits o queues default ≡ true
    → All
        (λ (e : String × Queue).
          IsOrdered
            (first_set e.1.soft_time_limit (task_soft o))
            (first_set e.1.time_limit (task_hard o default)))
        (by_name queues [])
      × IsOrdered (task_soft o) (task_hard o default)
unfolding check_time_limits
check_time_limits-IsOrdered o queues default h =
    any_conflict-IsOrdered (task_soft o) (task_hard o default) (by_name queues []) (ground arith)
