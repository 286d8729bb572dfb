-- ===== src/Util.antt =====
-- util.h and util.c: bit access, byte reversal, arithmetic shift and rotation of 32-bit words.
-- `set_bit`, `clr_bit`, `get_bits` and `set_bits` have no caller in the simulator.
pub mod Arith
pub mod Bounds
pub mod Rotations
use projet_prog.Base.{
  ℕ, ◌-◌, ◌+◌, ◌/◌, bit_and, bit_or, ◌>>>◌, ◌<<<◌, u8, u16, u32, sub32, not32, shl, shr, Machine,
  ◌==◌, if◌then◌else◌,
}

-- get_bit(x, i) at a constant i
unfoldable pub get_bit : ℕ → ℕ → ℕ
get_bit x i = bit_and (x >>> i) 1

unfoldable pub reverse_2 : ℕ → ℕ
reverse_2 x = u16 (bit_or (bit_and x 0xFF <<< 8) (bit_and (x >>> 8) 0xFF))

unfoldable pub reverse_4 : ℕ → ℕ
reverse_4 x =
    bit_or
      (bit_or (bit_or (bit_and x 0xFF <<< 24) (bit_and (x >>> 8) 0xFF <<< 16))
        (bit_and (x >>> 16) 0xFF <<< 8))
      (bit_and (x >>> 24) 0xFF)

module _ ⦃m : Machine⦄ where
  -- get_bit(x, i) at a computed i
  unfoldable pub get_bit_at : ℕ → ℕ → ℕ
  get_bit_at x i = bit_and (shr x i) 1

  unfoldable pub asr : ℕ → ℕ → ℕ
  asr value shift =
      bit_or (shr value shift) (if get_bit value 31 == 0 then 0 else shl (not32 0) (sub32 32 shift))

  unfoldable pub ror : ℕ → ℕ → ℕ
  ror value rotation = bit_or (shr value rotation) (shl value (sub32 32 rotation))
