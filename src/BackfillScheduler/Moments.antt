-- ===== src/BackfillScheduler/Moments.antt =====
-- _internal/services/backfill_scheduler.py: what a running backfill has done and sees.
use abstract_block_dumper.Prelude.{
  ℕ, zero, suc, ◌-◌, Bool, Option, none, some, List, ◌∷◌, [], length,
}
use abstract_block_dumper.Attempt.Transitions.{Now}
use abstract_block_dumper.BackfillScheduler.Head.{DumperHead}
use abstract_block_dumper.Dispatch.{Message}
use abstract_block_dumper.Throttle.{Gate, Look}

-- The world, `throttle_gate` and the cached head. `blocked`: the gate waits, and nothing follows.
pub record Progress (T : Type 0) : Type 0 where
  pub world : T × List Message
  pub gate : Gate T
  pub head : DumperHead
  pub now : Now
  pub blocked : Bool

-- The begin of a block, and whether an interrupt comes after it.
pub record Moment (T : Type 0) : Type 0 where
  pub is_running : Bool
  pub interrupted : Bool
  pub now : Now
  pub table : T

module _ {T : Type 0} where
  unfoldable pub arrive : Progress T → Moment T → Progress T
  arrive p m = record p { now = m.now; world = (m.table, p.world.1) }

  -- The last of the first `n` looks.
  abbrev pub last_look : List (Look T) → ℕ → Option (Look T)
  last_look looks zero = none
  last_look [] (suc n) = none
  last_look (look ∷ rest) (suc zero) = some look
  last_look (look ∷ rest) (suc (suc n)) = last_look rest (suc n)

  abbrev pub resume_at : Progress T → Gate T → Option (Look T) → Progress T
  resume_at p g none = record p { gate = g }
  resume_at p g (some look) = record p { gate = g; now = look.now; world = (look.table, p.world.1) }

  -- After the gate's answer, with the gate that it left.
  unfoldable pub resume : Progress T → Gate T → Progress T
  resume p g = resume_at p g (last_look p.gate.looks (length p.gate.looks - length g.looks))

  unfoldable pub with_world : Progress T → T × List Message → Progress T
  with_world p w = record p { world = w }

  unfoldable pub with_state : Progress T → (T × List Message) × Gate T → Progress T
  with_state p (w, g) = record p { world = w; gate = g }
