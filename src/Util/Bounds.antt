-- ===== src/Util/Bounds.antt =====
-- The results of the shifts and rotations of util.c are words.
use projet_prog.Base.{
  ℕ, ◌^◌, ◌<◌, arith, shl, shr, sub32, not32, Machine, Bool-cases, inl, inr, bit_or-lt,
  bit_and-lt_right, ◌==◌,
}
use native.Mathlib.Nat.{div-le_self}
use projet_prog.Util.{asr, ror, get_bit, get_bit_at}

module _ ⦃m : Machine⦄ where
  pub shl-lt : (x n : ℕ) → shl x n < 2 ^ 32
  unfolding shl
  shl-lt x n = ground (arith, m.shl_wide_lt x n)

  pub shr-lt : (x n : ℕ) → x < 2 ^ 32 → shr x n < 2 ^ 32
  unfolding shr
  shr-lt x n w = ground (arith, m.shr_wide_lt x n, div-le_self x (2 ^ n))

  pub asr-lt : (x n : ℕ) → x < 2 ^ 32 → asr x n < 2 ^ 32
  unfolding asr
  asr-lt x n w = bit_or-lt 32 _ _ (shr-lt x n w) (elim (Bool-cases (get_bit x 31 == 0)) [
    | inl clear ↦ rw clear (omega arith)
    | inr sign ↦ rw sign (shl-lt (not32 0) (sub32 32 n))
  ])

  pub ror-lt : (x n : ℕ) → x < 2 ^ 32 → ror x n < 2 ^ 32
  unfolding ror
  ror-lt x n w = bit_or-lt 32 _ _ (shr-lt x n w) (shl-lt x (sub32 32 n))

  pub get_bit_at-lt : (x i : ℕ) → get_bit_at x i < 2
  unfolding get_bit_at
  get_bit_at-lt x i = bit_and-lt_right 1 (shr x i) 1 (omega arith)
