-- ===== src/Base/Word.antt =====
-- The unsigned machine words of C as native numbers: casts, wrapping arithmetic, shifts by a
-- constant, and the parameter that stands for what the C standard leaves open.
use Prim.Native.Nat.{ℕ, ◌+◌, ◌-◌, ◌*◌, ◌/◌, ◌%◌, ◌^◌, ◌<◌}
use mathlib.Core.Bool.{Bool, true, false}
use projet_prog.Base.Tests.{ltb, if◌then◌else◌}

abbrev pub u8 : ℕ → ℕ
u8 n = n % 2 ^ 8

abbrev pub u16 : ℕ → ℕ
u16 n = n % 2 ^ 16

abbrev pub u32 : ℕ → ℕ
u32 n = n % 2 ^ 32

abbrev pub add32 : ℕ → ℕ → ℕ
add32 a b = (a + b) % 2 ^ 32

abbrev pub sub32 : ℕ → ℕ → ℕ
sub32 a b = (a + 2 ^ 32 - b) % 2 ^ 32

-- ~x of a uint32_t
abbrev pub not32 : ℕ → ℕ
not32 x = 2 ^ 32 - 1 - x

-- x >> k and (uint32_t) (x << k), at a constant k.
infixl 75 ◌>>>◌ ◌<<<◌
abbrev pub ◌>>>◌ : ℕ → ℕ → ℕ
x >>> k = x / 2 ^ k

abbrev pub ◌<<<◌ : ℕ → ℕ → ℕ
x <<< k = (x * 2 ^ k) % 2 ^ 32

-- A C comparison used as a number.
abbrev pub as_int : Bool → ℕ
as_int true = 1
as_int false = 0

-- An int is its 32-bit two's complement pattern; this is -1.
abbrev pub minus_one : ℕ
minus_one = 0xFFFFFFFF

-- What the program takes from the compiler and the host where the C standard fixes no result: the
-- value of a 32-bit shift whose count is not below 32, and what an uninitialised local holds.
-- Either way the value is a word.
pub record Machine : Type 0 where
  pub shl_wide : ℕ → ℕ → ℕ
  pub shr_wide : ℕ → ℕ → ℕ
  pub junk : ℕ
  pub shl_wide_lt : (x n : ℕ) → shl_wide x n < 2 ^ 32
  pub shr_wide_lt : (x n : ℕ) → shr_wide x n < 2 ^ 32
  pub junk_lt : junk < 2 ^ 32

module _ ⦃m : Machine⦄ where
  -- x << n and x >> n at a computed count
  unfoldable pub shl : ℕ → ℕ → ℕ
  shl x n = if ltb n 32 then (x * 2 ^ n) % 2 ^ 32 else m.shl_wide x n

  unfoldable pub shr : ℕ → ℕ → ℕ
  shr x n = if ltb n 32 then x / 2 ^ n else m.shr_wide x n
