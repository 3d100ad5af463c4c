-- ===== src/Numeric.antt =====
-- _internal/numeric.py: the rules for the numbers that a project configures.
--
-- A configured value is any Python value. A float stands here for the whole number of ticks
-- nearest to it: `unit` ticks are 1.0, one microsecond is one tick, as in a `timedelta`.
use abstract_block_dumper.Prelude.{ℕ, zero, suc, ◌*◌, Bool, true, false, ◌&&◌, String}

-- `minus n` is -(n + 1), so that each integer is written once.
pub data ℤ : Type 0 where
  plus : ℕ → ℤ
  minus : ℕ → ℤ

pub data Value : Type 0 where
  none_value : Value
  boolean : Bool → Value
  integer : ℤ → Value
  real : ℤ → Value
  text : String → Value
  other : Value

-- Ticks of 1.0.
abbrev pub unit : ℕ
unit = 1000000

abbrev pub is_non_negative : ℤ → Bool
is_non_negative (plus n) = true
is_non_negative (minus n) = false

abbrev pub is_positive : ℤ → Bool
is_positive (plus zero) = false
is_positive (plus (suc n)) = true
is_positive (minus n) = false

-- `_is_number`: an int or a float, but no bool.
abbrev pub is_number : Value → Bool
is_number (integer n) = true
is_number (real n) = true
is_number _ = false

-- `_is_integer`: an int, but no bool.
abbrev pub is_integer : Value → Bool
is_integer (integer n) = true
is_integer _ = false

-- The comparison of a number with 0; it is made only behind `_is_number` or `_is_integer`.
abbrev compare_zero : (ℤ → Bool) → Value → Bool
compare_zero test (integer n) = test n
compare_zero test (real n) = test n
compare_zero test _ = false

unfoldable pub is_positive_number : Value → Bool
is_positive_number v = is_number v && compare_zero is_positive v

unfoldable pub is_non_negative_number : Value → Bool
is_non_negative_number v = is_number v && compare_zero is_non_negative v

-- `value >= 1`, on an int.
unfoldable pub is_positive_integer : Value → Bool
is_positive_integer v = is_integer v && compare_zero is_positive v

unfoldable pub is_non_negative_integer : Value → Bool
is_non_negative_integer v = is_integer v && compare_zero is_non_negative v

-- The ticks of a number of seconds, and the value of an integer; used on values that were checked.
abbrev pub ticks : Value → ℕ
ticks (integer (plus n)) = n * unit
ticks (real (plus n)) = n
ticks _ = 0

abbrev pub whole : Value → ℕ
whole (integer (plus n)) = n
whole _ = 0

-- `n - 1`
abbrev pub decrement : ℤ → ℤ
decrement (plus zero) = minus 0
decrement (plus (suc n)) = plus n
decrement (minus n) = minus (suc n)
