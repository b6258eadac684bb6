-- ===== src/Prelude/Integer.antt =====
-- Go's `int` and `time.Duration` where only their sign and order count, and the conversion of a
-- `uint64`.
use ofm_registration_saga_se.Prelude.Outcome.{ltb, if◌then◌else◌}
use Prim.Native.Nat.{ℕ, zero, suc, ◌-◌}
use mathlib.Core.Bool.{Bool, true, false, not}

-- `negsuc n` is -(n+1).
pub data ℤ : Type 0 where
  pos : ℕ → ℤ
  negsuc : ℕ → ℤ

-- 0 < i
abbrev pub is_positive : ℤ → Bool
is_positive (pos zero) = false
is_positive (pos (suc n)) = true
is_positive (negsuc n) = false

abbrev pub is_negative : ℤ → Bool
is_negative (pos n) = false
is_negative (negsuc n) = true

-- i < j
unfoldable pub ltz : ℤ → ℤ → Bool
ltz (pos a) (pos b) = ltb a b
ltz (pos a) (negsuc b) = false
ltz (negsuc a) (pos b) = true
ltz (negsuc a) (negsuc b) = ltb b a

unfoldable pub eqz : ℤ → ℤ → Bool
unfolding ltz
eqz i j = if ltz i j then false else not (ltz j i)

-- int(n) of a uint64: the values from 2^63 on are negative
unfoldable pub int_of_uint64 : ℕ → ℤ
int_of_uint64 n = if ltb n 9223372036854775808 then pos n else negsuc (18446744073709551615 - n)

-- The integer where it is not negative, and 0 elsewhere.
unfoldable pub to_nat : ℤ → ℕ
to_nat (pos n) = n
to_nat (negsuc n) = 0
