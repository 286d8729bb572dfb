-- ===== src/DataProcessing/Shifted.antt =====
-- The shifter operands of arm_data_processing.c as arithmetic.
use projet_prog.Base.{
  ℕ, zero, suc, ◌⊎◌, inl, inr, bit_or_idem, ◌+◌, ◌-◌, ◌*◌, ◌/◌, ◌%◌, ◌^◌, ◌<◌, ◌≡◌, ◌∙◌, ap, sym,
  refl, arith, bit_and_mask, lt→ltb, shl, shr, sub32, Machine, ◌==◌, if◌then◌else◌, false, bit_or,
}
use projet_prog.Util.{get_bit, get_bit_at, ror}
use projet_prog.Util.Rotations.{ror-rotated, asr-filled}
use projet_prog.DataProcessing.Shifter.{shift_by_immediate, rotate_immediate}

-- A word rotated right by k places: its lowest k bits come back at the top.
abbrev pub rotated : (x k : ℕ) → ℕ
rotated x k = x % 2 ^ k * 2 ^ (32 - k) + x / 2 ^ k

module _ ⦃m : Machine⦄ where
  get_bit_at-eq : (x i : ℕ) → i < 32 → get_bit_at x i ≡ x / 2 ^ i % 2
  unfolding get_bit_at shr
  get_bit_at-eq x i h = rw (lt→ltb i 32 h) (bit_and_mask 1 (x / 2 ^ i))

  shl-eq : (x i : ℕ) → i < 32 → shl x i ≡ x * 2 ^ i % 2 ^ 32
  unfolding shl
  shl-eq x i h = rw (lt→ltb i 32 h) refl

  shr-eq : (x i : ℕ) → i < 32 → shr x i ≡ x / 2 ^ i
  unfolding shr
  shr-eq x i h = rw (lt→ltb i 32 h) refl

  -- By an immediate count from 1 to 31, a register operand is shifted left, shifted right, shifted
  -- right with its sign, or rotated right, and the carry is the last bit shifted out.
  pub shift_by_immediate-shifted :
      (value count carry : ℕ)
      → value < 2 ^ 32
      → 0 < count
      → count < 32
      → (shift_by_immediate 0 count value carry
          ≡ (value * 2 ^ count % 2 ^ 32, value / 2 ^ (32 - count) % 2))
        × (shift_by_immediate 1 count value carry
            ≡ (value / 2 ^ count, value / 2 ^ (count - 1) % 2))
        × (shift_by_immediate 2 count value carry ≡ (
          (if get_bit value 31 == 0 then 0 else (2 ^ count - 1) * 2 ^ (32 - count))
              + value / 2 ^ count,
          value / 2 ^ (count - 1) % 2,
        ))
        × (shift_by_immediate 3 count value carry ≡ (
          value % 2 ^ count * 2 ^ (32 - count) + value / 2 ^ count,
          value / 2 ^ (count - 1) % 2,
        ))
  unfolding shift_by_immediate
  shift_by_immediate-shifted value count carry word positive below =
      let some_count : (count == 0) ≡ false = ground arith in
      let last_up = get_bit_at-eq value (32 - count) (omega arith) in
      let last_down = get_bit_at-eq value (count - 1) (omega arith) in
      (
        rw (some_count, shl-eq value count below, last_up) refl,
        rw (some_count, shr-eq value count below, last_down) refl,
        rw (some_count, asr-filled value count word positive below, last_down) refl,
        rw (some_count, ror-rotated value count word positive below, last_down) refl,
      )

  rotate_immediate-turned :
      (immed_8 rotate_imm : ℕ)
      → immed_8 < 2 ^ 8
      → 0 < rotate_imm
      → rotate_imm < 16
      → rotate_immediate immed_8 rotate_imm ≡ rotated immed_8 (2 * rotate_imm)
  unfolding rotate_immediate ror
  rotate_immediate-turned x r byte positive below =
      let count : sub32 32 (2 * r) ≡ 32 - 2 * r = omega arith in
      ap (λ (t : ℕ). bit_or (shr x (2 * r)) (shl x t)) (sym count)
      ∙ ror-rotated x (2 * r) (omega arith) (omega arith) (omega arith)

  rotate_immediate-whole :
      (immed_8 : ℕ)
      → immed_8 < 2 ^ 8
      → m.shl_wide immed_8 32 ≡ immed_8
      → rotate_immediate immed_8 0 ≡ rotated immed_8 0
  unfolding rotate_immediate shl shr
  rotate_immediate-whole x byte same =
      let one : x / 1 ≡ x = omega arith in rw (same, one) (bit_or_idem 8 x byte ∙ omega arith)

  -- An eight-bit immediate is rotated right by twice the rotation field, if the field is not 0 or
  -- the host shifts a byte by 32 places to itself.
  pub rotate_immediate-rotated :
      (immed_8 rotate_imm : ℕ)
      → immed_8 < 2 ^ 8
      → rotate_imm < 16
      → (0 < rotate_imm) ⊎ ((x : ℕ) → x < 2 ^ 8 → m.shl_wide x 32 ≡ x)
      → rotate_immediate immed_8 rotate_imm ≡ rotated immed_8 (2 * rotate_imm)
  rotate_immediate-rotated x r byte below (inl positive) =
      rotate_immediate-turned x r byte positive below
  rotate_immediate-rotated x zero byte below (inr same) =
      rotate_immediate-whole x byte (same x byte)
  rotate_immediate-rotated x (suc r) byte below (inr same) =
      rotate_immediate-turned x (suc r) byte (omega arith) below
