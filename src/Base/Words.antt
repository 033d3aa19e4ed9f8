-- ===== src/Base/Words.antt =====
-- Machine integers of Go: the moduli, and int as an integer with a sign.
use Prim.Native.Nat.{ℕ, zero, suc, ◌+◌}
use mathlib.Core.Path.{◌≡◌}
use mathlib.Core.Logic.{◌↔◌}
use mathlib.Core.Bool.{Bool, true, false}
use native.Mathlib.Omega.{arith}
use gpbackup.Base.Tests.{nat_beq, nat_beq_iff, if◌then◌else◌}
use gpbackup.Base.Equality.{Comparable}

abbrev pub u32 : ℕ
u32 = 4294967296

-- The first offset that does not fit an int64.
abbrev pub i64_limit : ℕ
i64_limit = 9223372036854775808

abbrev pub u64 : ℕ
u64 = 18446744073709551616

-- `negsuc n` is -(n + 1).
pub data ℤ : Type 0 where
  pos : ℕ → ℤ
  negsuc : ℕ → ℤ

-- The first number that does not fit an int32.
abbrev pub i32_limit : ℕ
i32_limit = 2147483648

-- Adding 1 to an int32: its largest number is followed by the smallest.
abbrev pub increment_i32 : ℤ → ℤ
increment_i32 (pos n) = if nat_beq (n + 1) i32_limit then negsuc n else pos (n + 1)
increment_i32 (negsuc zero) = pos 0
increment_i32 (negsuc (suc n)) = negsuc n

-- `x--`
abbrev pub decrement : ℤ → ℤ
decrement (pos zero) = negsuc 0
decrement (pos (suc n)) = pos n
decrement (negsuc n) = negsuc (suc n)

abbrev pub is_zero : ℤ → Bool
is_zero (pos n) = nat_beq n 0
is_zero (negsuc n) = false

abbrev pub int_beq : ℤ → ℤ → Bool
int_beq (pos a) (pos b) = nat_beq a b
int_beq (negsuc a) (negsuc b) = nat_beq a b
int_beq (pos a) (negsuc b) = false
int_beq (negsuc a) (pos b) = false

pub int_beq_iff : (a b : ℤ) → (int_beq a b ≡ true) ↔ (a ≡ b)
int_beq_iff (pos a) (pos b) = ground (arith, nat_beq_iff a b)
int_beq_iff (negsuc a) (negsuc b) = ground (arith, nat_beq_iff a b)
int_beq_iff (pos a) (negsuc b) = ground arith
int_beq_iff (negsuc a) (pos b) = ground arith

instance abbrev pub int_comparable : Comparable ℤ
int_comparable = record { beq = int_beq; beq_iff = int_beq_iff }
