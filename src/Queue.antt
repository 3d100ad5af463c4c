-- ===== src/Queue.antt =====
-- _internal/services/queue_policy.py: queues with a policy, and what their messages carry.
--
-- Limits and instants are in ticks.
pub mod Laws
use Prim.Native.Char.{Char, code}
use Prim.Native.String
use abstract_block_dumper.Prelude.{
  ℕ, zero, suc, ◌+◌, ◌≤◌, ◌<◌, ◌≡◌, String, Bool, true, false, not, ◌&&◌, ◌||◌, Option, none, some,
  List, ◌∷◌, [], Dict, insert, leb, ltb, ◌==◌, str_eq, max, if◌then◌else◌,
}
use abstract_block_dumper.Numeric.{
  Value, none_value, text, real, plus, is_positive_number, is_positive_integer, ticks, whole,
}
use abstract_block_dumper.Retry.Policy.{RetryPolicy, is_none_value, optional_whole}

pub record Queue : Type 0 where
  pub name : String
  pub soft_time_limit : Option ℕ
  pub time_limit : Option ℕ
  pub message_ttl : Option ℕ
  pub throttle : Option ℕ
  pub retry : RetryPolicy

-- The white space that `str.strip` removes.
unfoldable pub is_space : Char → Bool
is_space c =
    let n = code c in
    (leb 9 n && leb n 13)
    || (leb 28 n && leb n 32)
    || n == 133
    || n == 160
    || n == 5760
    || (leb 8192 n && leb n 8202)
    || n == 8232
    || n == 8233
    || n == 8239
    || n == 8287
    || n == 12288

abbrev pub is_empty : String → Bool
is_empty String.[] = true
is_empty (String.◌∷◌ c s) = false

-- `s.lstrip()`
unfoldable pub strip_left : String → String
strip_left String.[] = ""
strip_left (String.◌∷◌ c s) = if is_space c then strip_left s else String.◌∷◌ c s

-- `s.rstrip()`
unfoldable pub strip_right : String → String
strip_right String.[] = ""
strip_right (String.◌∷◌ c s) =
    let rest = strip_right s in if is_space c && is_empty rest then "" else String.◌∷◌ c rest

unfoldable pub strip : String → String
strip s = strip_left (strip_right s)

pub data QueueError : Type 0 where
  name_invalid soft_time_limit_invalid time_limit_invalid message_ttl_invalid : QueueError
  throttle_invalid retry_invalid limits_in_wrong_order : QueueError

-- The arguments of `Queue(...)`; `retry` is none where it is no `RetryPolicy`.
pub record QueueArguments : Type 0 where
  pub name : Value
  pub soft_time_limit : Value
  pub time_limit : Value
  pub message_ttl : Value
  pub throttle : Value
  pub retry : Option RetryPolicy

pub data Checked : Type 0 where
  accepted : Queue → Checked
  refused : QueueError → Checked

abbrev pub is_duration : Value → Bool
is_duration v = is_none_value v || is_positive_number v

abbrev pub optional_ticks : Value → Option ℕ
optional_ticks v = if is_none_value v then none else some (ticks v)

-- `soft >= hard`, where both are set.
abbrev pub not_below : Option ℕ → Option ℕ → Bool
not_below (some soft) (some hard) = leb hard soft
not_below _ _ = false

-- The text of a name, if the value is one.
abbrev pub name_text : Value → Option String
name_text (text s) = some s
name_text _ = none

-- The checks after that of the name.
unfoldable pub checked_limits : String → QueueArguments → Option RetryPolicy → Checked
checked_limits name a retry =
    if not (is_duration a.soft_time_limit)
    then refused soft_time_limit_invalid
    else if not (is_duration a.time_limit)
    then refused time_limit_invalid
    else if not (is_duration a.message_ttl)
    then refused message_ttl_invalid
    else if not (is_none_value a.throttle || is_positive_integer a.throttle)
    then refused throttle_invalid
    else elim retry [
      | none ↦ refused retry_invalid
      | some policy ↦
          if not_below (optional_ticks a.soft_time_limit) (optional_ticks a.time_limit)
          then refused limits_in_wrong_order
          else accepted (record {
            name = name;
            soft_time_limit = optional_ticks a.soft_time_limit;
            time_limit = optional_ticks a.time_limit;
            message_ttl = optional_ticks a.message_ttl;
            throttle = optional_whole a.throttle;
            retry = policy;
          })
    ]

-- The check of the name, which is none where it is no text.
unfoldable pub checked_name : QueueArguments → Option String → Checked
checked_name a none = refused name_invalid
checked_name a (some s) =
    if is_empty (strip s) then refused name_invalid else checked_limits (strip s) a a.retry

-- `__post_init__`
unfoldable pub post_init : QueueArguments → Checked
unfolding checked_name checked_limits
post_init a = checked_name a (name_text a.name)

abbrev pub put_limit : String → Option ℕ → Dict Value → Dict Value
put_limit key none options = options
put_limit key (some n) options = insert key (real (plus n)) options

unfoldable pub message_options : Queue → Dict Value
message_options q =
    put_limit "time_limit" q.time_limit
      (put_limit "soft_time_limit" q.soft_time_limit (("queue", text q.name) ∷ []))

-- When a message stops being worth executing.
unfoldable pub message_expiry : Queue → Option ℕ → ℕ → Option ℕ
message_expiry q eta now = elim q.message_ttl [
  | none ↦ none
  | some ttl ↦ some (elim eta [ none ↦ now | some e ↦ max now e ] + ttl)
]
