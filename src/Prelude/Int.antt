-- ===== src/Prelude/Int.antt =====
-- Signed integers over the native numbers, and Rust's `as` casts between them and machine words.
use Prim.Native.Nat.{ℕ, ◌-◌, ◌*◌, ◌%◌, ◌^◌, ◌<◌}
use mathlib.Core.Path.{◌≡◌}
use mathlib.Core.Bool.{Bool, false}
use native.Mathlib.Omega.{arith}
use razor_rpc.Prelude.Tests.{◌==◌, ltb, if◌then◌else◌}

-- `negsuc n` is -(n + 1).
pub data ℤ : Type 0 where
  pos : ℕ → ℤ
  negsuc : ℕ → ℤ

-- `x as uN` for a signed x and `x as iN` for an unsigned one, at the width N with `m = 2 ^ N`.
abbrev pub as_unsigned : ℕ → ℤ → ℕ
as_unsigned m (pos n) = n % m
as_unsigned m (negsuc n) = m - 1 - n % m

abbrev pub as_signed : ℕ → ℕ → ℤ
as_signed m n = if ltb (2 * (n % m)) m then pos (n % m) else negsuc (m - 1 - n % m)

abbrev pub as_u32 : ℤ → ℕ
as_u32 = as_unsigned (2 ^ 32)

abbrev pub as_i32 : ℕ → ℤ
as_i32 = as_signed (2 ^ 32)

abbrev pub as_usize : ℤ → ℕ
as_usize = as_unsigned (2 ^ 64)

-- `==`
unfoldable pub int_eq : ℤ → ℤ → Bool
int_eq (pos m) (pos n) = m == n
int_eq (negsuc m) (negsuc n) = m == n
int_eq (pos m) (negsuc n) = false
int_eq (negsuc m) (pos n) = false

-- `0 < x`
abbrev pub is_pos : ℤ → Bool
is_pos (pos n) = ltb 0 n
is_pos (negsuc n) = false

-- The values of an iN with `half = 2 ^ (N - 1)`.
abbrev pub InSigned : ℕ → ℤ → Type 0
InSigned half (pos n) = n < half
InSigned half (negsuc n) = n < half

abbrev pub IsI32 : ℤ → Type 0
IsI32 = InSigned (2 ^ 31)

pub as_i32-as_u32 : (x : ℤ) → IsI32 x → as_i32 (as_u32 x) ≡ x
as_i32-as_u32 (pos n) h = ground arith
as_i32-as_u32 (negsuc n) h = ground arith

pub as_u32-lt : (x : ℤ) → as_u32 x < 2 ^ 32
as_u32-lt (pos n) = omega arith
as_u32-lt (negsuc n) = omega arith

pub as_u32-as_i32 : (n : ℕ) → n < 2 ^ 32 → as_u32 (as_i32 n) ≡ n
as_u32-as_i32 n h = ground arith

pub as_i32-small : (n : ℕ) → n < 2 ^ 31 → as_i32 n ≡ pos n
as_i32-small n h = ground arith
