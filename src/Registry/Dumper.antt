-- ===== src/Registry/Dumper.antt =====
-- _internal/dal/dumper_registry.py: the BlockDumpers of a process and the queues of their tasks.
--
-- A dumper and its Celery app are known by numbers: the source compares both by identity.
pub mod Laws
pub mod Accepted
use abstract_block_dumper.Prelude.{
  ℕ, ◌≡◌, String, Bool, true, false, not, ◌&&◌, ◌||◌, Option, none, some, List, ◌∷◌, [], ◌++◌, Dict,
  insert, lookup, update, any, ◌==◌, str_eq, if◌then◌else◌, is_none,
}
use abstract_block_dumper.Queue.{Queue}
use abstract_block_dumper.Retry.Policy.{RetryPolicy}

pub record BlockDumper : Type 0 where
  pub id : ℕ
  pub celery_app : ℕ

pub record DumperRegistry : Type 0 where
  pub dumpers : List BlockDumper
  pub created_after_django_loaded : List BlockDumper
  pub queues : Dict Queue
  pub queue_owners : Dict ℕ

abbrev pub empty : DumperRegistry
empty = record { dumpers = []; created_after_django_loaded = []; queues = []; queue_owners = [] }

pub data Outcome : Type 0 where
  registered app_has_dumper different_settings other_owner : Outcome

unfoldable pub register_dumper : Bool → DumperRegistry → BlockDumper → DumperRegistry × Outcome
register_dumper apps_ready g dumper =
    if any (λ (d : BlockDumper). d.celery_app == dumper.celery_app) g.dumpers
    then (g, app_has_dumper)
    else (
      record g {
        dumpers = g.dumpers ++ dumper ∷ [];
        created_after_django_loaded =
            if apps_ready
            then g.created_after_django_loaded ++ dumper ∷ []
            else g.created_after_django_loaded;
      },
      registered,
    )

abbrev same_number : Option ℕ → Option ℕ → Bool
same_number none none = true
same_number (some a) (some b) = a == b
same_number _ _ = false

abbrev same_policy : RetryPolicy → RetryPolicy → Bool
same_policy p q =
    same_number p.max_attempts q.max_attempts
    && same_number p.give_up_after_blocks q.give_up_after_blocks
    && p.fast_retry_attempts == q.fast_retry_attempts
    && p.fast_retry_delay == q.fast_retry_delay
    && p.backoff_start == q.backoff_start
    && p.backoff_multiplier == q.backoff_multiplier
    && p.max_delay == q.max_delay

-- `==` of the frozen dataclass: the fields are equal.
unfoldable pub same_queue : Queue → Queue → Bool
same_queue p q =
    str_eq p.name q.name
    && same_number p.soft_time_limit q.soft_time_limit
    && same_number p.time_limit q.time_limit
    && same_number p.message_ttl q.message_ttl
    && same_number p.throttle q.throttle
    && same_policy p.retry q.retry

-- `first or second`; a queue is always true.
abbrev pub or_queue : Option Queue → Option Queue → Option Queue
or_queue none o = o
or_queue (some q) o = some q

-- The name already has other settings.
abbrev pub differs : Option Queue → Queue → Bool
differs none q = false
differs (some p) q = not (same_queue p q)

abbrev pub belongs_to_other : Option ℕ → ℕ → Bool
belongs_to_other none dumper = false
belongs_to_other (some owner) dumper = not (owner == dumper)

pub data Scan : Type 0 where
  all_accepted : Dict Queue → Scan
  stopped : Outcome → Scan

-- The loop over `queues`: the accepted ones by name, or the first conflict.
unfoldable pub scan : DumperRegistry → ℕ → Dict Queue → List Queue → Scan
scan g dumper acc [] = all_accepted acc
scan g dumper acc (q ∷ rest) =
    let next = scan g dumper (insert q.name q acc) rest in
    if differs (or_queue (lookup q.name acc) (lookup q.name g.queues)) q
    then stopped different_settings
    else if belongs_to_other (lookup q.name g.queue_owners) dumper
    then stopped other_owner
    else next

-- `dict.fromkeys(accepted, dumper)`
abbrev pub owned_by : ℕ → Dict Queue → Dict ℕ
owned_by dumper [] = []
owned_by dumper ((k, q) ∷ rest) = (k, dumper) ∷ owned_by dumper rest

abbrev pub record_accepted : DumperRegistry → ℕ → Scan → DumperRegistry × Outcome
record_accepted g dumper (stopped e) = (g, e)
record_accepted g dumper (all_accepted acc) = (
  record g {
    queues = update g.queues acc;
    queue_owners = update g.queue_owners (owned_by dumper acc);
  },
  registered,
)

unfoldable pub register_queues : DumperRegistry → ℕ → List Queue → DumperRegistry × Outcome
unfolding scan
register_queues g dumper queues = record_accepted g dumper (scan g dumper [] queues)

unfoldable pub get_queue : DumperRegistry → Option String → Option Queue
get_queue g none = none
get_queue g (some name) = lookup name g.queues
