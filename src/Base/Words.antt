-- ===== src/Base/Words.antt =====
-- The unsigned words of the C code: a word is a number, and its wrap-around is written out.
use mathlib.Core.Bool.{Bool, false}
use zephyr_zyx_modem.Base.Tests.{◌==◌}
use Prim.Native.Nat.{ℕ, ◌+◌, ◌%◌, ◌^◌, ◌<◌}

abbrev pub IsByte : ℕ → Type 0
IsByte b = b < 256

-- `uint8_t` addition
abbrev pub add_u8 : ℕ → ℕ → ℕ
add_u8 a b = (a + b) % 256

-- `size_t` addition on a 64-bit target
abbrev pub add_size : ℕ → ℕ → ℕ
add_size a b = (a + b) % 2 ^ 64

-- a C `int` that a function returns: `negsuc n` is `-1 - n`
pub data ℤ : Type 0 where
  pos : ℕ → ℤ
  negsuc : ℕ → ℤ

-- whether an `int` is 0, as a test of a result
abbrev pub is_zero : ℤ → Bool
is_zero (pos n) = n == 0
is_zero (negsuc n) = false
