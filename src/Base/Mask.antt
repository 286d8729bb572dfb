-- ===== src/Base/Mask.antt =====
-- Masks of low bits, disjoint fields, and bits, as arithmetic, at every width.
use Prim.Native.Nat.{ℕ, zero, suc, ◌+◌, ◌-◌, ◌*◌, ◌/◌, ◌%◌, ◌^◌, ◌≤◌, ◌<◌, bit_and, bit_or, bit_xor}
use mathlib.Core.Path.{◌≡◌, refl, ap, ◌∙◌}
use native.Mathlib.Nat.{pow-suc, one-le-pow, div-div-eq-div-mul, div-add-mod'}
use native.Mathlib.Omega.{arith}
use Prim.Native.Nat.{bit_and-bitwise, bit_or-bitwise}
use projet_prog.Base.Bits.Step.{bit_and_step, bit_or_step, bit_xor_step}
use projet_prog.Base.Bits.{bit}

zero-bit_and : (b : ℕ) → bit_and 0 b ≡ 0
zero-bit_and b = bit_and-bitwise 0 b

bit_and-zero_below : (n a : ℕ) → a ≤ n → bit_and a 0 ≡ 0
bit_and-zero_below n zero p = refl
bit_and-zero_below zero (suc a) p = absurd (omega arith)
bit_and-zero_below (suc n) (suc a) p =
    omega (arith, bit_and_step (suc a) 0, bit_and-zero_below n (suc a / 2) (omega arith))

bit_or-zero_below : (n a : ℕ) → a ≤ n → bit_or a 0 ≡ a
bit_or-zero_below n zero p = refl
bit_or-zero_below zero (suc a) p = absurd (omega arith)
bit_or-zero_below (suc n) (suc a) p =
    omega (arith, bit_or_step (suc a) 0, bit_or-zero_below n (suc a / 2) (omega arith))

pub bit_and-zero : (a : ℕ) → bit_and a 0 ≡ 0
bit_and-zero a = bit_and-zero_below a a (omega arith)

pub bit_or-zero : (a : ℕ) → bit_or a 0 ≡ a
bit_or-zero a = bit_or-zero_below a a (omega arith)

bit_or_comm_below : (n a b : ℕ) → a ≤ n → bit_or a b ≡ bit_or b a
bit_or_comm_below n zero b p = omega (arith, bit_or-zero b, bit_or-bitwise 0 b)
bit_or_comm_below zero (suc a) b p = absurd (omega arith)
bit_or_comm_below (suc n) (suc a) b p = omega (
  arith,
  bit_or_step (suc a) b,
  bit_or_step b (suc a),
  bit_or_comm_below n (suc a / 2) (b / 2) (omega arith),
)

pub bit_or_comm : (a b : ℕ) → bit_or a b ≡ bit_or b a
bit_or_comm a b = bit_or_comm_below a a b (omega arith)

pub bit_and-lt_right : (k a b : ℕ) → b < 2 ^ k → bit_and a b < 2 ^ k
bit_and-lt_right zero a zero p = omega (arith, bit_and-zero a)
bit_and-lt_right zero a (suc b) p = absurd (omega arith)
bit_and-lt_right (suc k) a b p = omega (
  arith,
  bit_and_step a b,
  pow-suc 2 k,
  bit_and-lt_right k (a / 2) (b / 2) (omega (arith, pow-suc 2 k)),
)

pub bit_and-lt : (k a b : ℕ) → a < 2 ^ k → bit_and a b < 2 ^ k
bit_and-lt zero zero b p = omega (arith, zero-bit_and b)
bit_and-lt zero (suc a) b p = absurd (omega arith)
bit_and-lt (suc k) a b p = omega (
  arith,
  bit_and_step a b,
  pow-suc 2 k,
  bit_and-lt k (a / 2) (b / 2) (omega (arith, pow-suc 2 k)),
)

-- The remainder by 2 ^ (k + 1), one digit at a time.
mod-pow-suc : (k a : ℕ) → a % 2 ^ suc k ≡ (a / 2) % 2 ^ k * 2 + a % 2
mod-pow-suc k a =
    let quotients : a / 2 / 2 ^ k ≡ a / 2 ^ suc k =
      div-div-eq-div-mul a 2 (2 ^ k) ∙ ap (λ (t : ℕ). a / t) (omega (arith, pow-suc 2 k)) in
    omega (
      arith,
      div-add-mod' a (2 ^ suc k),
      div-add-mod' (a / 2) (2 ^ k),
      ap (λ (t : ℕ). t * 2 ^ k) quotients,
      ap (λ (t : ℕ). a / 2 ^ suc k * t) (pow-suc 2 k),
    )

pub bit-eq-div : (k a : ℕ) → bit k a ≡ a / 2 ^ k % 2
unfolding bit
bit-eq-div zero a = omega arith
bit-eq-div (suc k) a =
    rw (bit-eq-div k (a / 2), div-div-eq-div-mul a 2 (2 ^ k))
      (ap (λ (t : ℕ). a / t % 2) (omega (arith, pow-suc 2 k)))

-- `x & (2 ^ k - 1)` is a remainder.
pub bit_and_mask : (k a : ℕ) → bit_and a (2 ^ k - 1) ≡ a % 2 ^ k
bit_and_mask zero a = omega (arith, bit_and-lt_right 0 a 0)
bit_and_mask (suc k) a =
    let half : (2 ^ suc k - 1) / 2 ≡ 2 ^ k - 1 = omega (arith, pow-suc 2 k, one-le-pow k 2) in
    omega (
      arith,
      bit_and_step a (2 ^ suc k - 1),
      pow-suc 2 k,
      one-le-pow k 2,
      mod-pow-suc k a,
      bit_and_mask k (a / 2),
      ap (bit_and (a / 2)) half,
    )

-- `(q << k) | r` is a sum where `r` fits in the k bits below.
pub bit_or_fields : (k q r : ℕ) → r < 2 ^ k → bit_or (q * 2 ^ k) r ≡ q * 2 ^ k + r
bit_or_fields zero q zero p = omega (arith, bit_or-zero (q * 1))
bit_or_fields zero q (suc r) p = absurd (omega arith)
bit_or_fields (suc k) q r p =
    let shifted : q * 2 ^ suc k ≡ 2 * (q * 2 ^ k) =
      omega (arith, ap (λ (t : ℕ). q * t) (pow-suc 2 k)) in
    let half : q * 2 ^ suc k / 2 ≡ q * 2 ^ k = omega arith in
    omega (
      arith,
      bit_or_step (q * 2 ^ suc k) r,
      ap (λ (t : ℕ). bit_or t (r / 2)) half,
      bit_or_fields k q (r / 2) (omega (arith, pow-suc 2 k)),
    )

-- The same, for a number whose k low bits are clear.
pub bit_or-eq-add : (k x r : ℕ) → x % 2 ^ k ≡ 0 → r < 2 ^ k → bit_or x r ≡ x + r
bit_or-eq-add k x r clear p =
    let whole : x ≡ x / 2 ^ k * 2 ^ k = omega (arith, div-add-mod' x (2 ^ k)) in
    omega (arith, bit_or_fields k (x / 2 ^ k) r p, ap (λ (t : ℕ). bit_or t r) whole)

-- The low k bits of `a | b` where those of b are clear, and of `a & b`.
pub bit_or-mod : (k a b : ℕ) → b % 2 ^ k ≡ 0 → bit_or a b % 2 ^ k ≡ a % 2 ^ k
bit_or-mod zero a b h = omega arith
bit_or-mod (suc k) a b h =
    let half : bit_or a b / 2 ≡ bit_or (a / 2) (b / 2) = omega (arith, bit_or_step a b) in
    let low : (b / 2) % 2 ^ k ≡ 0 = omega (arith, mod-pow-suc k b) in
    omega (
      arith,
      mod-pow-suc k (bit_or a b),
      mod-pow-suc k a,
      mod-pow-suc k b,
      ap (λ (t : ℕ). t % 2 ^ k) half,
      bit_or-mod k (a / 2) (b / 2) low,
      bit_or_step a b,
    )

pub bit_and-mod : (k a b c : ℕ) → a % 2 ^ k ≡ b % 2 ^ k → bit_and a c % 2 ^ k ≡ bit_and b c % 2 ^ k
bit_and-mod zero a b c h = omega arith
bit_and-mod (suc k) a b c h =
    let half : (x : ℕ) → bit_and x c / 2 ≡ bit_and (x / 2) (c / 2) =
      λ x. omega (arith, bit_and_step x c) in
    let low : (a / 2) % 2 ^ k ≡ (b / 2) % 2 ^ k = omega (arith, mod-pow-suc k a, mod-pow-suc k b) in
    omega (
      arith,
      mod-pow-suc k (bit_and a c),
      mod-pow-suc k (bit_and b c),
      mod-pow-suc k a,
      mod-pow-suc k b,
      ap (λ (t : ℕ). t % 2 ^ k) (half a),
      ap (λ (t : ℕ). t % 2 ^ k) (half b),
      bit_and-mod k (a / 2) (b / 2) (c / 2) low,
      bit_and_step a c,
      bit_and_step b c,
    )

pub bit_and-bit_and : (k a b : ℕ) → b < 2 ^ k → bit_and (bit_and a b) b ≡ bit_and a b
bit_and-bit_and zero a zero p = rw (bit_and-zero a) refl
bit_and-bit_and zero a (suc b) p = absurd (omega arith)
bit_and-bit_and (suc k) a b p =
    let half : bit_and a b / 2 ≡ bit_and (a / 2) (b / 2) = omega (arith, bit_and_step a b) in
    omega (
      arith,
      bit_and_step a b,
      bit_and_step (bit_and a b) b,
      ap (λ (t : ℕ). bit_and t (b / 2)) half,
      bit_and-bit_and k (a / 2) (b / 2) (omega (arith, pow-suc 2 k)),
    )

-- `x ^ (2 ^ k - 1)` complements the k low bits.
pub bit_xor_mask : (k a : ℕ) → a < 2 ^ k → bit_xor a (2 ^ k - 1) ≡ 2 ^ k - 1 - a
bit_xor_mask zero zero p = refl
bit_xor_mask zero (suc a) p = absurd (omega arith)
bit_xor_mask (suc k) a p =
    let half : (2 ^ suc k - 1) / 2 ≡ 2 ^ k - 1 = omega (arith, pow-suc 2 k, one-le-pow k 2) in
    omega (
      arith,
      bit_xor_step a (2 ^ suc k - 1),
      pow-suc 2 k,
      one-le-pow k 2,
      bit_xor_mask k (a / 2) (omega (arith, pow-suc 2 k)),
      ap (bit_xor (a / 2)) half,
    )
