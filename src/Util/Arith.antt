-- ===== src/Util/Arith.antt =====
-- The byte reversals of util.h as arithmetic, and their effect on bytes.
use projet_prog.Base.{
  ℕ, ◌+◌, ◌*◌, ◌/◌, ◌%◌, ◌^◌, ◌<◌, ◌≡◌, arith, ◌>>>◌, bit_and_mask, bit_or-eq-add,
}
use projet_prog.Util.{get_bit, reverse_2, reverse_4}

pub get_bit-eq : (x i : ℕ) → get_bit x i ≡ x / 2 ^ i % 2
unfolding get_bit
get_bit-eq x i = bit_and_mask 1 (x >>> i)

pub reverse_2-eq : (x : ℕ) → reverse_2 x ≡ x % 256 * 256 + x / 256 % 256
unfolding reverse_2
reverse_2-eq x =
    rw (bit_and_mask 8 x, bit_and_mask 8 (x / 2 ^ 8))
      (omega (
        arith,
        bit_or-eq-add 8 (x % 256 * 256 % 2 ^ 32) (x / 256 % 256) (omega arith) (omega arith),
      ))

pub reverse_4-eq :
    (x : ℕ)
    → reverse_4 x
      ≡ x % 256 * 2 ^ 24 + x / 2 ^ 8 % 256 * 2 ^ 16 + x / 2 ^ 16 % 256 * 2 ^ 8 + x / 2 ^ 24 % 256
unfolding reverse_4
reverse_4-eq x =
    rw
      (
        bit_and_mask 8 x,
        bit_and_mask 8 (x / 2 ^ 8),
        bit_and_mask 8 (x / 2 ^ 16),
        bit_and_mask 8 (x / 2 ^ 24),
        bit_or-eq-add 24 (x % 2 ^ 8 * 2 ^ 24 % 2 ^ 32) (x / 2 ^ 8 % 2 ^ 8 * 2 ^ 16 % 2 ^ 32)
            (omega arith) (omega arith),
        bit_or-eq-add 16 (x % 2 ^ 8 * 2 ^ 24 % 2 ^ 32 + x / 2 ^ 8 % 2 ^ 8 * 2 ^ 16 % 2 ^ 32)
            (x / 2 ^ 16 % 2 ^ 8 * 2 ^ 8 % 2 ^ 32) (omega arith) (omega arith),
        bit_or-eq-add 8
            (x % 2 ^ 8 * 2 ^ 24 % 2 ^ 32
              + x / 2 ^ 8 % 2 ^ 8 * 2 ^ 16 % 2 ^ 32
              + x / 2 ^ 16 % 2 ^ 8 * 2 ^ 8 % 2 ^ 32)
            (x / 2 ^ 24 % 2 ^ 8) (omega arith) (omega arith),
      )
      (omega arith)

-- Reversing the bytes of a word twice gives the word back.
pub reverse_4-reverse_4 : (x : ℕ) → x < 2 ^ 32 → reverse_4 (reverse_4 x) ≡ x
reverse_4-reverse_4 x p = omega (arith, reverse_4-eq x, reverse_4-eq (reverse_4 x))

pub reverse_2-reverse_2 : (x : ℕ) → x < 2 ^ 16 → reverse_2 (reverse_2 x) ≡ x
reverse_2-reverse_2 x p = omega (arith, reverse_2-eq x, reverse_2-eq (reverse_2 x))
