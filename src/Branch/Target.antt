-- ===== src/Branch/Target.antt =====
-- Where arm_branch goes, and what it keeps.
use projet_prog.Base.{
  ℕ, ◌-◌, ◌/◌, ◌%◌, ◌^◌, ◌≡◌, ◌∙◌, refl, arith, bit_and, add32, sub32, minus_one, ◌>>>◌, some, ◌==◌,
  if◌then◌else◌, bit_and_mask, bit_xor_mask, Bool-cases, inl, inr,
}
use projet_prog.Core.{Core, M, pure, ◌>>◌, arm_read_register, arm_write_register}
use projet_prog.Core.Values.{
  visible, with_register, arm_read_register-eq, arm_write_register-eq, after,
}
use projet_prog.Conditions.{arm_check_cond}
use projet_prog.Conditions.Meaning.{Condition, code, expected, flags, arm_check_cond-meaning}
use projet_prog.Branch.{branch_offset, arm_branch}

-- The offset is the negated 24-bit field.
branch_offset-eq : (ins : ℕ) → branch_offset ins ≡ (2 ^ 32 - ins % 2 ^ 24) % 2 ^ 32
unfolding branch_offset
branch_offset-eq ins =
    rw (bit_and_mask 24 ins, bit_xor_mask 24 (ins % 2 ^ 24) (omega arith)) (omega arith)

-- The state with the return address in the link register, if the instruction asks for it.
abbrev pub linked : ℕ → Core → Core
linked ins p = if ins / 2 ^ 24 % 2 == 0 then p else with_register p 14 (add32 (visible p 15) 4)

abbrev pub branched : ℕ → Core → Core
branched ins p = with_register (linked ins p) 15 (sub32 (visible p 15) (ins % 2 ^ 24))

-- The part of the function below the test.
abbrev jump : (ins pc : ℕ) → M ℕ
jump ins pc = do
  if bit_and (ins >>> 24) 1 == 0 then pure tt else arm_write_register 14 (add32 pc 4)
  arm_write_register 15 (add32 pc (branch_offset ins))
  pure 0

-- The last two statements.
abbrev land : ℕ → M ℕ
land t = do arm_write_register 15 t; pure 0

arrive : (p : Core) (t : ℕ) → land t p ≡ some (0, with_register p 15 t)
unfolding pure ◌>>◌
arrive p t =
    after (arm_write_register 15 t) (λ _. pure 0) (arm_write_register-eq p 15 (omega arith) t)

taken : (ins : ℕ) (p : Core) → jump ins (visible p 15) p ≡ some (0, branched ins p)
unfolding pure ◌>>◌
taken ins p =
    let pc = visible p 15 in
    let t : ℕ = sub32 pc (ins % 2 ^ 24) in
    let target : add32 pc ((2 ^ 32 - ins % 2 ^ 24) % 2 ^ 32) ≡ t = omega arith in
    rw (bit_and_mask 1 (ins >>> 24), branch_offset-eq ins, target)
      (elim (Bool-cases (ins / 2 ^ 24 % 2 == 0)) [
        | inl plain ↦ rw plain (after {p = p} (pure tt) (λ _. land t) refl ∙ arrive p t)
        | inr links ↦ rw links (
            after (arm_write_register 14 (add32 pc 4)) _
              (arm_write_register-eq p 14 (omega arith) (add32 pc 4))
            ∙ arrive (with_register p 14 (add32 pc 4)) t)
      ])

-- A branch whose condition passes returns 0, puts pc + 4 into r14 if bit 24 is set, and moves the
-- pc back by the 24-bit field, pc being the value that an instruction reads; a branch whose
-- condition does not pass returns -1; either leaves the rest of the state alone.
pub arm_branch-branched :
    (k : Condition) (ins : ℕ) (p : Core)
    → ins / 2 ^ 28 % 16 ≡ code k
    → arm_branch ins p
      ≡ (if expected k (flags p) == 1 then some (0, branched ins p) else some (minus_one, p))
unfolding arm_branch pure
arm_branch-branched k ins p h =
    after (arm_read_register 15) _ (arm_read_register-eq p 15 (omega arith))
    ∙ after (arm_check_cond ins) _ (arm_check_cond-meaning k ins p h)
    ∙ elim (Bool-cases (expected k (flags p) == 1)) [
      | inl passed ↦ rw passed (taken ins p)
      | inr failed ↦ rw failed refl
    ]
