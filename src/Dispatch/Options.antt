-- ===== src/Dispatch/Options.antt =====
-- services/queue_executor.py: what the messages of a submission carry.
use abstract_block_dumper.Prelude.{
  ℕ, ◌≡◌, refl, String, false, Option, none, some, ◌∷◌, [], Dict, insert, lookup, update,
  lookup-insert, ap, str_eq, ◌∙◌,
}
use abstract_block_dumper.Numeric.{Value, text, real, plus}
use abstract_block_dumper.Queue.{Queue, message_options, put_limit}
use abstract_block_dumper.Registry.Items.{RegistryItem}
use abstract_block_dumper.Dispatch.{put_expiry, own_options, submission_options}

-- A limit of the queue, or the option of that name that the task sets.
abbrev pub limit_or : Option ℕ → Option Value → Option Value
limit_or none own = own
limit_or (some n) own = some (real (plus n))

lookup-put_expiry :
    (k : String) (o : Option ℕ) (d : Dict Value)
    → str_eq "expires" k ≡ false
    → lookup k (put_expiry o d) ≡ lookup k d
lookup-put_expiry k none d ne = refl
lookup-put_expiry k (some n) d ne = rw lookup-insert (rw ne refl)

-- The three options of a message, with the limits taken apart.
abbrev pub HasOptions : Value → Option ℕ → Option ℕ → Dict Value → Dict Value → Type 0
HasOptions name soft hard own d =
    (lookup "queue" d ≡ some name)
    × (lookup "time_limit" d ≡ limit_or hard (lookup "time_limit" own))
    × (lookup "soft_time_limit" d ≡ limit_or soft (lookup "soft_time_limit" own))

update-limits :
    (name : Value) (soft hard : Option ℕ) (d : Dict Value)
    → HasOptions name soft hard d (
        update d
          (put_limit "time_limit" hard (put_limit "soft_time_limit" soft (("queue", name) ∷ []))))
unfolding update insert
update-limits name none none d = simp lookup-insert (refl, refl, refl)
update-limits name (some n) none d = simp lookup-insert (refl, refl, refl)
update-limits name none (some m) d = simp lookup-insert (refl, refl, refl)
update-limits name (some n) (some m) d = simp lookup-insert (refl, refl, refl)

-- A first submission or re-dispatch is routed to the queue whose policy it is sent under and carries
-- that queue's limits; a limit that the queue does not set is the task's own. No option of the task
-- can override these.
pub submission_options_routed :
    (now : ℕ) (item : RegistryItem) (q : Queue) (eta : Option ℕ)
    → HasOptions
        (text q.name)
        q.soft_time_limit
        q.time_limit
        (own_options item)
        (submission_options now item q eta)
unfolding submission_options message_options
submission_options_routed now item q eta =
    let h =
      update-limits (text q.name) q.soft_time_limit q.time_limit
        (insert "queue" (text q.name) (own_options item)) in
    (
      lookup-put_expiry "queue" _ _ refl ∙ h.0,
      lookup-put_expiry "time_limit" _ _ refl
          ∙ h.1
          ∙ ap (limit_or q.time_limit) (lookup-insert "queue" "time_limit" _ _),
      lookup-put_expiry "soft_time_limit" _ _ refl
          ∙ h.2
          ∙ ap (limit_or q.soft_time_limit) (lookup-insert "queue" "soft_time_limit" _ _),
    )
