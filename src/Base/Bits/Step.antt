-- ===== src/Base/Bits/Step.antt =====
-- The lowest binary digit of the native bit operations: x op y from the digits of the halves.
-- The library defines them by a walk over the digits of the left operand with a step count.
use Prim.Native.Nat.{
  ℕ, zero, suc, ◌+◌, ◌*◌, ◌/◌, ◌%◌, ◌≤◌, ◌<◌, min, max, digits, bitwise, bit_and, bit_or, bit_xor,
  bit_and-bitwise, bit_or-bitwise, bit_xor-bitwise, differ,
}
use mathlib.Core.Path.{◌≡◌, refl, ◌∙◌, ap}
use mathlib.Core.Logic.{inl, inr}
use native.Mathlib.Omega.{arith}
use projet_prog.Base.Tests.{ltb, ltb→lt, not_ltb→le, Bool-cases}

module _ (rest : ℕ → ℕ) (op : ℕ → ℕ → ℕ) where
  walk : ℕ → ℕ → ℕ → ℕ
  walk steps x y = digits rest op steps x y

  -- One step more than the left operand needs changes nothing.
  one_more : (steps x y : ℕ) → x ≤ steps → walk (suc steps) x y ≡ walk steps x y
  unfolding walk
  one_more zero zero y h = refl
  one_more zero (suc x) y h = absurd (omega arith)
  one_more (suc steps) zero y h = refl
  one_more (suc steps) (suc x) y h =
      let halves = one_more steps (suc x / 2) (y / 2) (omega arith) in
      ap (λ (t : ℕ). t * 2 + op (suc x % 2) (y % 2)) halves

  spare : (steps k x y : ℕ) → k ≤ steps → x ≤ k → walk steps x y ≡ walk k x y
  unfolding walk
  spare zero zero x y h i = refl
  spare zero (suc k) x y h i = absurd (omega arith)
  spare (suc steps) k x y h i = elim (Bool-cases (ltb k (suc steps))) [
    | inl fewer ↦
        let room : k ≤ steps = omega (arith, ltb→lt k (suc steps) fewer) in
        one_more steps x y (omega arith) ∙ spare steps k x y room i
    | inr all ↦
        let same : suc steps ≡ k = omega (arith, not_ltb→le k (suc steps) all) in
        ap (λ (s : ℕ). walk s x y) same
  ]

  lowest :
      (x y : ℕ)
      → bitwise rest op (suc x) y ≡ bitwise rest op (suc x / 2) (y / 2) * 2 + op (suc x % 2) (y % 2)
  unfolding walk
  lowest x y =
      let halves = spare x (suc x / 2) (suc x / 2) (y / 2) (omega arith) (omega arith) in
      ap (λ (t : ℕ). t * 2 + op (suc x % 2) (y % 2)) halves

-- A Boolean table read on digits is addition without carry.
sum_of_digits : (i j : ℕ) → i < 2 → j < 2 → differ i j ≡ (i + j) % 2
sum_of_digits zero zero h k = refl
sum_of_digits zero (suc zero) h k = refl
sum_of_digits (suc zero) zero h k = refl
sum_of_digits (suc zero) (suc zero) h k = refl
sum_of_digits (suc (suc i)) j h k = absurd (omega arith)
sum_of_digits zero (suc (suc j)) h k = absurd (omega arith)
sum_of_digits (suc zero) (suc (suc j)) h k = absurd (omega arith)

-- The equation of each operation.
pub bit_xor_step : (x y : ℕ) → bit_xor x y ≡ bit_xor (x / 2) (y / 2) * 2 + (x % 2 + y % 2) % 2
bit_xor_step zero y = omega (arith, bit_xor-bitwise zero y, bit_xor-bitwise 0 (y / 2))
bit_xor_step (suc x) y =
    let digit = sum_of_digits (suc x % 2) (y % 2) (omega arith) (omega arith) in
    let halves = lowest (λ t. t) differ x y in
    omega (arith, digit, halves, bit_xor-bitwise (suc x) y, bit_xor-bitwise (suc x / 2) (y / 2))

pub bit_and_step : (x y : ℕ) → bit_and x y ≡ bit_and (x / 2) (y / 2) * 2 + min (x % 2) (y % 2)
bit_and_step zero y = omega (arith, bit_and-bitwise zero y, bit_and-bitwise 0 (y / 2))
bit_and_step (suc x) y =
    let halves = lowest (λ _. 0) min x y in
    omega (arith, halves, bit_and-bitwise (suc x) y, bit_and-bitwise (suc x / 2) (y / 2))

pub bit_or_step : (x y : ℕ) → bit_or x y ≡ bit_or (x / 2) (y / 2) * 2 + max (x % 2) (y % 2)
bit_or_step zero y = omega (arith, bit_or-bitwise zero y, bit_or-bitwise 0 (y / 2))
bit_or_step (suc x) y =
    let halves = lowest (λ t. t) max x y in
    omega (arith, halves, bit_or-bitwise (suc x) y, bit_or-bitwise (suc x / 2) (y / 2))
