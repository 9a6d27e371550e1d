-- ===== src/Prelude/Int.antt =====
-- C's `int`, and the casts between it and the unsigned types.
use short_message.Prelude.Tests.{ltb, ◌==◌, if◌then◌else◌}
use Prim.Native.Nat.{ℕ, ◌-◌, ◌%◌, ◌^◌, ◌<◌}
use mathlib.Core.Path.{◌≡◌}
use mathlib.Core.Logic.{◌↔◌}
use mathlib.Core.Bool.{Bool, false}
use native.Mathlib.Omega.{arith}

-- `negsuc n` is -(n + 1).
pub data ℤ : Type 0 where
  pos : ℕ → ℤ
  negsuc : ℕ → ℤ

-- (int32_t) of a uint32_t: the same 32 bits, read as two's complement.
abbrev pub int32 : ℕ → ℤ
int32 n = if ltb n (2 ^ 31) then pos n else negsuc (2 ^ 32 - n - 1)

-- The conversion of an int to an unsigned type of `w` values.
abbrev pub to_unsigned : ℕ → ℤ → ℕ
to_unsigned w (pos n) = n % w
to_unsigned w (negsuc n) = (w - 1) - n % w

abbrev pub u32 : ℤ → ℕ
u32 = to_unsigned (2 ^ 32)

abbrev pub u16 : ℤ → ℕ
u16 = to_unsigned (2 ^ 16)

abbrev pub u8 : ℤ → ℕ
u8 = to_unsigned (2 ^ 8)

-- a == b on `int`
abbrev pub int_eq : ℤ → ℤ → Bool
int_eq (pos a) (pos b) = a == b
int_eq (negsuc a) (negsuc b) = a == b
int_eq _ _ = false

-- a < b on `int`
abbrev pub int_lt : ℤ → ℤ → Bool
int_lt (pos a) (pos b) = ltb a b
int_lt (pos a) (negsuc b) = false
int_lt (negsuc a) (pos b) = Bool.true
int_lt (negsuc a) (negsuc b) = ltb b a

pub int_eq_iff : (a b : ℤ) → (int_eq a b ≡ Bool.true) ↔ (a ≡ b)
int_eq_iff (pos a) (pos b) = ground arith
int_eq_iff (pos a) (negsuc b) = ground arith
int_eq_iff (negsuc a) (pos b) = ground arith
int_eq_iff (negsuc a) (negsuc b) = ground arith

pub int_eq_refl : (n : ℤ) → int_eq n n ≡ Bool.true
int_eq_refl n = (int_eq_iff n n).1 (λ i. n)

-- A cast to `int` and back loses nothing.
pub u32-int32 : (n : ℕ) → n < 2 ^ 32 → u32 (int32 n) ≡ n
u32-int32 n h = ground arith

pub u16-pos : (n : ℕ) → n < 2 ^ 16 → u16 (pos n) ≡ n
u16-pos n h = omega arith

pub u8-pos : (n : ℕ) → n < 2 ^ 8 → u8 (pos n) ≡ n
u8-pos n h = omega arith
