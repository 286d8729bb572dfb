-- ===== src/DataProcessing/Compare.antt =====
-- CMP, and the conditions that test its flags.
use projet_prog.Base.{
  ℕ, ◌/◌, ◌%◌, ◌^◌, ◌<◌, ◌≡◌, ◌∙◌, ap, inl, refl, arith, sub32, as_int, subst, Bool, not, some, ltb,
  leb, ◌==◌, if◌then◌else◌, bit_and-lt_right, add32,
}
use projet_prog.Core.{Core, pure, ◌>>◌, arm_read_register}
use projet_prog.Core.Valid.{IsValid}
use projet_prog.Core.Values.{visible, arm_read_register-eq, after}
use projet_prog.Registers.{nb_register}
use projet_prog.Conditions.{arm_check_cond}
use projet_prog.Conditions.Meaning.{
  eq, ne, cs, cc, hi, ls, Condition, Flags, code, expected, arm_check_cond-meaning,
}
use projet_prog.DataProcessing.{opcode_switch}
use projet_prog.DataProcessing.Alu.{cmp, sub_overflow}
use projet_prog.DataProcessing.Flags.{FlagsSet, result_flags, update_cpsr-FlagsSet}

pub visible-lt : (p : Core) (i : ℕ) → IsValid p → i < nb_register → visible p i < 2 ^ 32
visible-lt p i v h =
    ground (arith, v.words i h, bit_and-lt_right 32 (add32 (p.reg i) 4) 0xFFFFFFFD (omega arith))

-- The flags after a comparison: V is the borrow.
abbrev pub compared : ℕ → ℕ → Flags
compared a b = record { n = leb (2 ^ 31) (sub32 a b); z = a == b; c = leb b a; v = ltb a b }

pub compared-eq :
    (a b : ℕ)
    → a < 2 ^ 32
    → b < 2 ^ 32
    → result_flags (sub32 a b) (if ltb a b then 0 else 1) (as_int (ltb a b)) ≡ compared a b
compared-eq a b u w =
    let same : (sub32 a b == 0) ≡ (a == b) = ground arith in
    let no_borrow : ((if ltb a b then 0 else 1) == 1) ≡ leb b a = ground arith in
    let borrow : (as_int (ltb a b) == 1) ≡ ltb a b = ground arith in
    rw (same, no_borrow, borrow) refl

-- CMP returns 0 and sets N, Z, C and V from the unsigned difference of Rn and the operand; V is
-- set exactly when C is clear.
pub opcode_switch-compared :
    (p : Core) (s rn rd op2 co : ℕ)
    → IsValid p
    → rn < nb_register
    → op2 < 2 ^ 32
    → (p' : Core) × (opcode_switch 0xA s rn rd op2 co p ≡ some (0, p'))
      × FlagsSet (compared (visible p rn) op2) p p'
unfolding opcode_switch cmp pure ◌>>◌
opcode_switch-compared p s rn rd op2 co valid hn w =
    let a = visible p rn in
    let u = visible-lt p rn valid hn in
    let c : ℕ = if ltb a op2 then 0 else 1 in
    let (p', runs, set) =
      update_cpsr-FlagsSet p (sub32 a op2) 0 c (sub_overflow a op2) (omega arith) (ground arith)
        (ground arith) (inl (ground arith)) in
    (
      p',
      after (cmp s rn rd op2 co) _
          (after (arm_read_register rn) _ (arm_read_register-eq p rn hn) ∙ runs),
      subst (λ f. FlagsSet f p p') (compared-eq a op2 u w) set,
    )

-- The unsigned order relations.
pub data Relation : Type 0 where
  equal different at_least below above at_most : Relation

abbrev pub related : Relation → ℕ → ℕ → Bool
related equal a b = a == b
related different a b = not (a == b)
related at_least a b = leb b a
related below a b = ltb a b
related above a b = ltb b a
related at_most a b = leb a b

abbrev pub condition : Relation → Condition
condition equal = eq
condition different = ne
condition at_least = cs
condition below = cc
condition above = hi
condition at_most = ls

expected-related :
    (r : Relation) (a b : ℕ) → expected (condition r) (compared a b) ≡ as_int (related r a b)
expected-related equal a b = refl
expected-related different a b = refl
expected-related at_least a b = refl
expected-related below a b = ground arith
expected-related above a b = ground arith
expected-related at_most a b = ground arith

-- An instruction after CMP whose condition is EQ, NE, CS, CC, HI or LS passes exactly when Rn and
-- the operand stand in the unsigned relation of that name.
pub opcode_switch-arm_check_cond :
    (r : Relation) (p : Core) (s rn rd op2 co : ℕ)
    → IsValid p
    → rn < nb_register
    → op2 < 2 ^ 32
    → (p' : Core) × (opcode_switch 0xA s rn rd op2 co p ≡ some (0, p'))
      × ((ins : ℕ)
          → ins / 2 ^ 28 % 16 ≡ code (condition r)
          → arm_check_cond ins p' ≡ some (as_int (related r (visible p rn) op2), p'))
opcode_switch-arm_check_cond r p s rn rd op2 co valid hn w =
    let (p', runs, set) = opcode_switch-compared p s rn rd op2 co valid hn w in
    (
      p',
      runs,
      λ ins h.
          arm_check_cond-meaning (condition r) ins p' h
          ∙ ap (λ (t : ℕ). some (t, p'))
              (ap (expected (condition r)) set.set ∙ expected-related r (visible p rn) op2),
    )
