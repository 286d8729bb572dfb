-- ===== src/Conditions/Meaning.antt =====
-- The meaning of the sixteen conditions, as the comments of arm_constants.h give it, and where
-- arm_check_cond agrees with it.
use projet_prog.Base.{
  ℕ, ◌≡◌, ◌^◌, ◌/◌, ◌%◌, arith, refl, bit_and, ◌>>>◌, Bool, true, false, not, ◌&&◌, ◌||◌, as_int,
  some, ◌==◌, ==_iff, bit_and_mask, bit, bit-lt, bit-bit_and, bit-eq-div,
}
use projet_prog.Conditions.{undefined_instruction, check_cond, arm_check_cond}
use projet_prog.Core.{Core, pure, ◌>>=◌, asks, arm_read_cpsr}
use projet_prog.Registers.{cpsr_mask, registers_read_cpsr}

-- The condition types of arm_constants.h; `un` depends on the ARM version.
pub data Condition : Type 0 where
  eq ne cs cc mi pl vs vc hi ls ge lt gt le al un : Condition

pub record Flags : Type 0 where
  pub n : Bool
  pub z : Bool
  pub c : Bool
  pub v : Bool

abbrev pub code : Condition → ℕ
code eq = 0x0
code ne = 0x1
code cs = 0x2
code cc = 0x3
code mi = 0x4
code pl = 0x5
code vs = 0x6
code vc = 0x7
code hi = 0x8
code ls = 0x9
code ge = 0xA
code lt = 0xB
code gt = 0xC
code le = 0xD
code al = 0xE
code un = 0xF

abbrev pub holds : Condition → Flags → Bool
holds eq f = f.z
holds ne f = not f.z
holds cs f = f.c
holds cc f = not f.c
holds mi f = f.n
holds pl f = not f.n
holds vs f = f.v
holds vc f = not f.v
holds hi f = f.c && not f.z
holds ls f = not f.c || f.z
holds ge f = (f.n && f.v) || (not f.n && not f.v)
holds lt f = (f.n && not f.v) || (not f.n && f.v)
holds gt f = not f.z && ((f.n && f.v) || (not f.n && not f.v))
holds le f = f.z || ((f.n && not f.v) || (not f.n && f.v))
holds al f = true
holds un f = false

-- The answer of the code for the condition `c`, at flags given as bits.
abbrev pub answer : Condition → Flags → ℕ
answer k f = check_cond (code k) (as_int f.n) (as_int f.z) (as_int f.c) (as_int f.v)

-- The three ways in which the code answers.
abbrev pub expected : Condition → Flags → ℕ
expected un f = undefined_instruction
expected le f = as_int (f.z && ((f.n && not f.v) || (not f.n && f.v)))
expected k f = as_int (holds k f)

-- A test at every setting of the flags.
abbrev everywhere : (Bool → Bool) → Bool
everywhere f = f true && f false

abbrev at_all_flags : (Flags → Bool) → Bool
at_all_flags f =
    everywhere
      λ n. everywhere λ z. everywhere λ c. everywhere λ v. f (record { n = n; z = z; c = c; v = v })

everywhere-true : (f : Bool → Bool) → everywhere f ≡ true → (b : Bool) → f b ≡ true
everywhere-true f h true = ground arith
everywhere-true f h false = ground arith

at_all_flags-true : (f : Flags → Bool) → at_all_flags f ≡ true → (s : Flags) → f s ≡ true
at_all_flags-true f h s =
    let at : (n z c v : Bool) → Bool = λ n z c v. f (record { n = n; z = z; c = c; v = v }) in
    let h1 =
      everywhere-true (λ n. everywhere λ z. everywhere λ c. everywhere λ v. at n z c v) h s.n in
    let h2 = everywhere-true (λ z. everywhere λ c. everywhere λ v. at s.n z c v) h1 s.z in
    let h3 = everywhere-true (λ c. everywhere λ v. at s.n s.z c v) h2 s.c in
    everywhere-true (at s.n s.z s.c) h3 s.v

answer-table : (k : Condition) → at_all_flags (λ f. answer k f == expected k f) ≡ true
unfolding check_cond
answer-table eq = refl
answer-table ne = refl
answer-table cs = refl
answer-table cc = refl
answer-table mi = refl
answer-table pl = refl
answer-table vs = refl
answer-table vc = refl
answer-table hi = refl
answer-table ls = refl
answer-table ge = refl
answer-table lt = refl
answer-table gt = refl
answer-table le = refl
answer-table al = refl
answer-table un = refl

answer-eq : (k : Condition) (f : Flags) → answer k f ≡ expected k f
answer-eq k f =
    (==_iff _ _).0 (at_all_flags-true (λ s. answer k s == expected k s) (answer-table k) f)

-- The flags in bits 31 to 28 of the cpsr.
abbrev flag : Core → ℕ → Bool
flag p i = p.reg 16 / 2 ^ i % 2 == 1

abbrev pub flags : Core → Flags
flags p = record { n = flag p 31; z = flag p 30; c = flag p 29; v = flag p 28 }

as_int-odd : (x : ℕ) → as_int (x % 2 == 1) ≡ x % 2
as_int-odd x = ground arith

-- The mask of the cpsr keeps the flags.
pub masked_flag : (x i : ℕ) → bit i cpsr_mask ≡ 1 → bit_and x cpsr_mask / 2 ^ i % 2 ≡ x / 2 ^ i % 2
masked_flag x i h = omega (
  arith,
  bit-eq-div i x,
  bit-eq-div i (bit_and x cpsr_mask),
  bit-bit_and i x cpsr_mask,
  bit-lt i x,
)

-- The nibble of flags, and a bit of it.
nzcv-eq : (x : ℕ) → bit_and (bit_and x cpsr_mask >>> 28) 0xF ≡ x / 2 ^ 28 % 16
unfolding bit
nzcv-eq x = omega (
  arith,
  bit_and_mask 4 (bit_and x cpsr_mask >>> 28),
  masked_flag x 28 refl,
  masked_flag x 29 refl,
  masked_flag x 30 refl,
  masked_flag x 31 refl,
)

n-eq : (x : ℕ) → bit_and (x / 2 ^ 28 % 16 / 2 ^ 3) 1 ≡ as_int (x / 2 ^ 31 % 2 == 1)
n-eq x = omega (arith, bit_and_mask 1 (x / 2 ^ 28 % 16 / 2 ^ 3), as_int-odd (x / 2 ^ 31))

z-eq : (x : ℕ) → bit_and (x / 2 ^ 28 % 16 / 2 ^ 2) 1 ≡ as_int (x / 2 ^ 30 % 2 == 1)
z-eq x = omega (arith, bit_and_mask 1 (x / 2 ^ 28 % 16 / 2 ^ 2), as_int-odd (x / 2 ^ 30))

c-eq : (x : ℕ) → bit_and (x / 2 ^ 28 % 16 / 2 ^ 1) 1 ≡ as_int (x / 2 ^ 29 % 2 == 1)
c-eq x = omega (arith, bit_and_mask 1 (x / 2 ^ 28 % 16 / 2 ^ 1), as_int-odd (x / 2 ^ 29))

v-eq : (x : ℕ) → bit_and (x / 2 ^ 28 % 16) 1 ≡ as_int (x / 2 ^ 28 % 2 == 1)
v-eq x = omega (arith, bit_and_mask 1 (x / 2 ^ 28 % 16), as_int-odd (x / 2 ^ 28))

-- Under each of the sixteen conditions, arm_check_cond leaves the state alone and answers from the
-- flags of the cpsr: 1 or 0 as arm_constants.h describes the condition, but for `le`, where it
-- asks Z and N different from V instead of either, and for `un`, where it answers 7.
pub arm_check_cond-meaning :
    (k : Condition) (ins : ℕ) (p : Core)
    → ins / 2 ^ 28 % 16 ≡ code k
    → arm_check_cond ins p ≡ some (expected k (flags p), p)
unfolding arm_check_cond arm_read_cpsr registers_read_cpsr asks pure ◌>>=◌
arm_check_cond-meaning k ins p h =
    let x = p.reg 16 in
    let field : bit_and (ins >>> 28) 0xF ≡ code k = omega (arith, bit_and_mask 4 (ins >>> 28), h) in
    rw (field, nzcv-eq x, n-eq x, z-eq x, c-eq x, v-eq x, answer-eq k (flags p)) refl
