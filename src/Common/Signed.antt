-- ===== src/Common/Signed.antt =====
-- Signed machine integers as ℤ, with the wrap-around of `as i32` written out.
use Prim.Native.Nat.{ℕ, zero, suc, ◌+◌, ◌-◌, ◌%◌, ◌^◌, ◌<◌}
use mathlib.Core.Path.{◌≡◌}
use mathlib.Core.Logic.{◌↔◌}
use mathlib.Core.Bool.{Bool, true, false}
use native.Mathlib.Omega.{arith}
use flutter_experiments.Common.Tests.{ltb, nat_beq, if◌then◌else◌}
use flutter_experiments.Common.Classes.{Eq}

-- `negsuc n` is -(n + 1).
pub data ℤ : Type 0 where
  pos : ℕ → ℤ
  negsuc : ℕ → ℤ

-- The status that the C functions return on failure.
abbrev pub minus_one : ℤ
minus_one = negsuc 0

abbrev pub int_beq : ℤ → ℤ → Bool
int_beq (pos a) (pos b) = nat_beq a b
int_beq (pos a) (negsuc b) = false
int_beq (negsuc a) (pos b) = false
int_beq (negsuc a) (negsuc b) = nat_beq a b

pub int_beq_iff : (a b : ℤ) → (int_beq a b ≡ true) ↔ (a ≡ b)
int_beq_iff (pos a) (pos b) = ground arith
int_beq_iff (pos a) (negsuc b) = ground arith
int_beq_iff (negsuc a) (pos b) = ground arith
int_beq_iff (negsuc a) (negsuc b) = ground arith

instance abbrev pub int_eq : Eq ℤ
int_eq = record { beq = int_beq; beq_iff = int_beq_iff }

-- `0 < a`.
abbrev pub is_positive : ℤ → Bool
is_positive (pos a) = ltb 0 a
is_positive (negsuc a) = false

-- `a + 1`.
abbrev pub succ : ℤ → ℤ
succ (pos a) = pos (a + 1)
succ (negsuc zero) = pos 0
succ (negsuc (suc a)) = negsuc a

-- `max(a, 1)`.
abbrev pub max_one : ℤ → ℤ
max_one a = if is_positive a then a else pos 1

-- The bit pattern of `x as u32`.
abbrev pub as_u32 : ℤ → ℕ
as_u32 (pos a) = a % 2 ^ 32
as_u32 (negsuc a) = 2 ^ 32 - 1 - a % 2 ^ 32

-- The integer that a 32-bit pattern stands for.
abbrev pub i32_of_bits : ℕ → ℤ
i32_of_bits n = if ltb n (2 ^ 31) then pos n else negsuc (2 ^ 32 - 1 - n)

-- `x as i32`, of a wider integer.
unfoldable pub as_i32 : ℤ → ℤ
as_i32 a = i32_of_bits (as_u32 a)

pub as_i32_small : (n : ℕ) → n < 2 ^ 31 → as_i32 (pos n) ≡ pos n
unfolding as_i32
as_i32_small n h = ground arith
