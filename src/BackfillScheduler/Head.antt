-- ===== src/BackfillScheduler/Head.antt =====
-- _internal/services/backfill_scheduler.py: the chain head that blocks are measured against.
use abstract_block_dumper.Prelude.{
  ℕ, ◌-◌, ◌*◌, Bool, true, Option, none, some, leb, if◌then◌else◌, or_else,
}
use abstract_block_dumper.Backfill.{beyond_archive}
use abstract_block_dumper.Dispatch.{archive_block_threshold}
use abstract_block_dumper.Numeric.{unit}

-- In ticks.
abbrev pub head_refresh_seconds : ℕ
head_refresh_seconds = 60 * unit

-- `_dumper_head_cache` and `_dumper_head_read_at`
pub record DumperHead : Type 0 where
  pub cache : Option ℕ
  pub read_at : Option ℕ

abbrev pub refresh_due : Option ℕ → ℕ → Bool
refresh_due none now = true
refresh_due (some read_at) now = leb head_refresh_seconds (now - read_at)

-- A failed read keeps the head.
abbrev pub refreshed : DumperHead → ℕ → Option ℕ → DumperHead
refreshed h now none = record h { read_at = some now }
refreshed h now (some head) = record { cache = some head; read_at = some now }

-- `_latest_dumper_head`; `head` is what a read of the chain gives now, or none where it raises.
unfoldable pub latest_dumper_head : DumperHead → ℕ → Option ℕ → ℕ → DumperHead × ℕ
latest_dumper_head h now head block =
    let h' = if refresh_due h.read_at now then refreshed h now head else h in
    (h', or_else h'.cache block)

-- `_get_network_type_for_block`: the head that is then known, and whether the block is archived.
unfoldable pub get_network_type_for_block : Option ℕ → Option ℕ → ℕ → Option (ℕ × Bool)
get_network_type_for_block none none block = none
get_network_type_for_block none (some head) block =
    some (head, beyond_archive archive_block_threshold head block)
get_network_type_for_block (some head) read block =
    some (head, beyond_archive archive_block_threshold head block)
