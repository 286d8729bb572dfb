-- ===== src/Util/Rotations.antt =====
-- The rotation and the arithmetic shift of util.c as arithmetic.
use projet_prog.Base.{
  ℕ, zero, suc, ◌+◌, ◌-◌, ◌*◌, ◌/◌, ◌%◌, ◌^◌, ◌<◌, ◌≤◌, ◌≡◌, ◌∙◌, ap, refl, arith, bit_or-eq-add,
  lt→ltb, shl, shr, sub32, not32, Machine, ◌==◌, if◌then◌else◌, Bool-cases, inl, inr, bit_or_comm,
}
use native.Mathlib.Nat.{
  add-mul-mod_self_right, div-add-mod', mod-lt, mod-eq_of_lt, mul-lt-mul_of_pos_right, one-le-pow,
  pow-suc, mul_assoc, add-mul, mul-mod_left, div-lt_iff_lt-mul, div-le_self,
}
use projet_prog.Util.{asr, ror, get_bit}

pow_sum : (j k s : ℕ) → j + k ≡ s → 2 ^ j * 2 ^ k ≡ 2 ^ s
pow_sum zero k s e = let same : k ≡ s = omega arith in omega (arith, ap (λ (t : ℕ). 2 ^ t) same)
pow_sum (suc j) k zero e = absurd (omega arith)
pow_sum (suc j) k (suc s) e =
    let double : 2 ^ suc j ≡ 2 * 2 ^ j = omega (arith, pow-suc 2 j) in
    omega (
      arith,
      ap (λ (t : ℕ). t * 2 ^ k) double,
      mul_assoc 2 (2 ^ j) (2 ^ k),
      pow_sum j k s (omega arith),
      pow-suc 2 s,
    )

-- A left shift by 32 - k keeps the k low bits, and moves them to the top.
shl-top : (x k : ℕ) → k ≤ 32 → (x * 2 ^ (32 - k)) % 2 ^ 32 ≡ x % 2 ^ k * 2 ^ (32 - k)
shl-top x k h =
    let q : ℕ = x / 2 ^ k in
    let r : ℕ = x % 2 ^ k in
    let c : ℕ = 2 ^ (32 - k) in
    let whole : 2 ^ k * c ≡ 2 ^ 32 = pow_sum k (32 - k) 32 (omega arith) in
    let low : r * c < 2 ^ 32 = omega (
      arith,
      whole,
      mul-lt-mul_of_pos_right {k = c} (mod-lt x (one-le-pow k 2 (omega arith)))
          (one-le-pow (32 - k) 2 (omega arith)),
    ) in
    let parts : x * c ≡ r * c + q * 2 ^ 32 = omega (
      arith,
      ap (λ (t : ℕ). t * c) (div-add-mod' x (2 ^ k)),
      add-mul (q * 2 ^ k) r c,
      mul_assoc q (2 ^ k) c,
      ap (λ (t : ℕ). q * t) whole,
    ) in
    ap (λ (t : ℕ). t % 2 ^ 32) parts ∙ add-mul-mod_self_right (r * c) q (2 ^ 32) ∙ mod-eq_of_lt low

module _ ⦃m : Machine⦄ (x k : ℕ) (word : x < 2 ^ 32) (positive : 0 < k) (below : k < 32) where
  left : shl x (sub32 32 k) ≡ x % 2 ^ k * 2 ^ (32 - k)
  unfolding shl
  left =
      let count : sub32 32 k ≡ 32 - k = omega arith in
      rw (count, lt→ltb (32 - k) 32 (omega arith)) (shl-top x k (omega arith))

  right : shr x k ≡ x / 2 ^ k
  unfolding shr
  right = rw (lt→ltb k 32 below) refl

  right-lt : x / 2 ^ k < 2 ^ (32 - k)
  right-lt =
      (div-lt_iff_lt-mul {k = 2 ^ k} (one-le-pow k 2 (omega arith))).1
        (omega (arith, pow_sum (32 - k) k 32 (omega arith)))

  -- For a word and a count from 1 to 31, ror is the rotation: the high bits move down by the count
  -- and the bits below it come back at the top.
  pub ror-rotated : ror x k ≡ x % 2 ^ k * 2 ^ (32 - k) + x / 2 ^ k
  unfolding ror
  ror-rotated =
      rw (left, right)
        (bit_or_comm (x / 2 ^ k) (x % 2 ^ k * 2 ^ (32 - k))
          ∙ bit_or-eq-add (32 - k) (x % 2 ^ k * 2 ^ (32 - k)) (x / 2 ^ k)
              (mul-mod_left (x % 2 ^ k) (2 ^ (32 - k))) right-lt)

  -- The bits that asr sets for a negative word.
  ones : shl (not32 0) (sub32 32 k) ≡ (2 ^ k - 1) * 2 ^ (32 - k)
  unfolding shl
  ones =
      let c : ℕ = 2 ^ (32 - k) in
      let count : sub32 32 k ≡ 32 - k = omega arith in
      let whole = pow_sum k (32 - k) 32 (omega arith) in
      let back : 2 ^ k - 1 + 1 ≡ 2 ^ k = omega (arith, one-le-pow k 2) in
      rw (count, lt→ltb (32 - k) 32 (omega arith))
        (omega (
          arith,
          whole,
          add-mul (2 ^ k - 1) 1 c,
          ap (λ (t : ℕ). t * c) back,
          one-le-pow (32 - k) 2,
        ))

  -- For a word and a count from 1 to 31, asr is the shift that fills with the sign: the quotient,
  -- and the `count` highest bits set if bit 31 is.
  pub asr-filled :
      asr x k ≡ (if get_bit x 31 == 0 then 0 else (2 ^ k - 1) * 2 ^ (32 - k)) + x / 2 ^ k
  unfolding asr
  asr-filled =
      rw (right, ones)
        (elim (Bool-cases (get_bit x 31 == 0)) [
          | inl clear ↦ rw clear (
              bit_or_comm (x / 2 ^ k) 0
              ∙ bit_or-eq-add 32 0 (x / 2 ^ k) (omega arith) (omega (arith, div-le_self x (2 ^ k))))
          | inr sign ↦ rw sign (
              bit_or_comm (x / 2 ^ k) ((2 ^ k - 1) * 2 ^ (32 - k))
              ∙ bit_or-eq-add (32 - k) ((2 ^ k - 1) * 2 ^ (32 - k)) (x / 2 ^ k)
                  (mul-mod_left (2 ^ k - 1) (2 ^ (32 - k))) right-lt)
        ])
