-- ===== src/Queue/Laws.antt =====
-- Queues: what a constructed queue satisfies.
use Prim.Native.Char.{Char}
use abstract_block_dumper.Prelude.{
  ℕ, ◌<◌, ◌≡◌, refl, ap, String, false, ◌&&◌, Option, none, some, arith, Bool-cases, inl, inr,
}
use abstract_block_dumper.Numeric.{is_positive_number, is_positive_integer}
use abstract_block_dumper.Queue.{
  Queue, QueueArguments, accepted, post_init, checked_limits, checked_name, is_empty, is_space,
  strip, strip_left, strip_right, name_text,
}
use abstract_block_dumper.Retry.Policy.{RetryPolicy}

pub record IsValid (q : Queue) : Type 0 where
  pub named : is_empty q.name ≡ false
  pub stripped : strip q.name ≡ q.name
  pub soft_positive : (n : ℕ) → q.soft_time_limit ≡ some n → 0 < n
  pub hard_positive : (n : ℕ) → q.time_limit ≡ some n → 0 < n
  pub ttl_positive : (n : ℕ) → q.message_ttl ≡ some n → 0 < n
  pub throttle_positive : (n : ℕ) → q.throttle ≡ some n → 0 < n
  pub soft_below_hard : (s h : ℕ) → q.soft_time_limit ≡ some s → q.time_limit ≡ some h → s < h

strip_right-strip_right : (s : String) → strip_right (strip_right s) ≡ strip_right s
unfolding strip_right
strip_right-strip_right String.[] = refl
strip_right-strip_right (String.◌∷◌ c s) = ground (arith, strip_right-strip_right s)

tail : String → String
tail String.[] = ""
tail (String.◌∷◌ c s) = s

strip_right_tail :
    (c : Char) (s : String) → strip_right (String.◌∷◌ c s) ≡ String.◌∷◌ c s → strip_right s ≡ s
unfolding strip_right tail
strip_right_tail c s h = elim (Bool-cases (is_space c && is_empty (strip_right s))) [
  | inl b ↦ cc (rw b at h)
  | inr b ↦ ap tail (rw b at h)
]

strip_right_empty : strip_right "" ≡ ""
unfolding strip_right
strip_right_empty = refl

-- Stripping on the left keeps a text without white space at its end.
strip_right-strip_left :
    (s : String) → strip_right s ≡ s → strip_right (strip_left s) ≡ strip_left s
unfolding strip_left
strip_right-strip_left String.[] h = strip_right_empty
strip_right-strip_left (String.◌∷◌ c s) h = elim (Bool-cases (is_space c)) [
  | inl e ↦ rw e (strip_right-strip_left s (strip_right_tail c s h))
  | inr e ↦ rw e h
]

strip_left-strip_left : (s : String) → strip_left (strip_left s) ≡ strip_left s
unfolding strip_left
strip_left-strip_left String.[] = refl
strip_left-strip_left (String.◌∷◌ c s) = ground (arith, strip_left-strip_left s)

strip-strip : (s : String) → strip (strip s) ≡ strip s
unfolding strip
strip-strip s = rw (strip_right-strip_left _ (strip_right-strip_right s)) (strip_left-strip_left _)

checked-IsValid :
    (name : String) (a : QueueArguments) (retry : Option RetryPolicy) {q : Queue}
    → is_empty name ≡ false
    → strip name ≡ name
    → checked_limits name a retry ≡ accepted q
    → IsValid q
unfolding checked_limits is_positive_number is_positive_integer
checked-IsValid name a none e f h = ground arith
checked-IsValid name a (some policy) e f h = record {
  named = ground arith;
  stripped = ground arith;
  soft_positive = λ n p. ground arith;
  hard_positive = λ n p. ground arith;
  ttl_positive = λ n p. ground arith;
  throttle_positive = λ n p. ground arith;
  soft_below_hard = λ s t p r. ground arith;
}

checked_name-IsValid :
    (a : QueueArguments) (o : Option String) {q : Queue} → checked_name a o ≡ accepted q → IsValid q
unfolding checked_name
checked_name-IsValid a none h = cc
checked_name-IsValid a (some s) h = elim (Bool-cases (is_empty (strip s))) [
  | inl b ↦ cc (rw b at h)
  | inr b ↦ checked-IsValid (strip s) a a.retry b (strip-strip s) (rw b at h)
]

-- A queue that `Queue(...)` accepts has a stripped, non-empty name, positive limits, and a soft time
-- limit below its hard one.
pub post_init-IsValid : (a : QueueArguments) {q : Queue} → post_init a ≡ accepted q → IsValid q
unfolding post_init
post_init-IsValid a h = checked_name-IsValid a (name_text a.name) h
