-- ===== src/DataProcessing/Sums.antt =====
-- ADD and SUB with the bit S: the result and the flags.
use projet_prog.Base.{
  ℕ, ◌+◌, ◌^◌, ◌<◌, ◌≡◌, ◌≢◌, inl, refl, arith, subst, add32, sub32, as_int, bit_and_mask, ◌>>>◌,
  some, ltb, leb, ◌==◌, if◌then◌else◌,
}
use projet_prog.Core.{Core, pure, ◌>>◌}
use projet_prog.Core.Valid.{IsValid}
use projet_prog.Core.Values.{visible, with_register, after}
use projet_prog.Registers.{nb_register}
use projet_prog.Conditions.Meaning.{Flags}
use projet_prog.DataProcessing.{opcode_switch}
use projet_prog.DataProcessing.Alu.{
  add, sub, update_cpsr, carry_from_add, add_overflow, sub_overflow,
}
use projet_prog.DataProcessing.Compare.{visible-lt, compared, compared-eq}
use projet_prog.DataProcessing.Flags.{FlagsSet, result_flags, update_cpsr-FlagsSet}
use projet_prog.DataProcessing.Meaning.{written, two_reads}

-- The flags after an addition: C and V are both the carry.
abbrev pub added : ℕ → ℕ → Flags
added a b = record {
  n = leb (2 ^ 31) (add32 a b);
  z = add32 a b == 0;
  c = leb (2 ^ 32) (a + b);
  v = leb (2 ^ 32) (a + b);
}

carry_from_add-eq :
    (a b : ℕ) → a < 2 ^ 32 → b < 2 ^ 32 → carry_from_add a b ≡ as_int (leb (2 ^ 32) (a + b))
unfolding carry_from_add
carry_from_add-eq a b h k = rw (bit_and_mask 1 ((a + b) >>> 32)) (ground arith)

added-eq :
    (a b : ℕ)
    → a < 2 ^ 32
    → b < 2 ^ 32
    → result_flags (add32 a b) (carry_from_add a b) (add_overflow a b) ≡ added a b
added-eq a b h k =
    let test : (as_int (leb (2 ^ 32) (a + b)) == 1) ≡ leb (2 ^ 32) (a + b) = ground arith in
    rw (carry_from_add-eq a b h k, test) refl

module _ (p : Core) (rn rd op2 co : ℕ) (valid : IsValid p) (hn : rn < nb_register)
    (hd : rd < nb_register) (not_pc : rd ≢ 15) (w : op2 < 2 ^ 32) where
  -- ADD with the bit S and a destination other than the pc returns 0, sets N and Z from the sum of
  -- Rn and the operand modulo 2 ^ 32 and C and V to its carry, and then writes the sum to Rd.
  pub opcode_switch-added :
      (p' : Core) × (opcode_switch 0x4 1 rn rd op2 co p
        ≡ some (0, with_register p' rd (add32 (visible p rn) op2)))
      × FlagsSet (added (visible p rn) op2) p p'
  unfolding opcode_switch add pure ◌>>◌
  opcode_switch-added =
      let x : ℕ = visible p rn in
      let u = visible-lt p rn valid hn in
      let c = carry_from_add-eq x op2 u w in
      let (p', runs, set) =
        update_cpsr-FlagsSet p (add32 x op2) rd (carry_from_add x op2) (add_overflow x op2)
          (omega arith) not_pc (ground (arith, c)) (inl (ground arith)) in
      (
        p',
        written p rn rd op2 co hn hd (add 1 rn rd op2 co) (add32 x op2) (
            two_reads p rn rd op2 co hn hd _ (
              after (update_cpsr (add32 x op2) 1 rd (carry_from_add x op2) (add_overflow x op2))
                (λ _. pure (add32 x op2)) runs)),
        subst (λ f. FlagsSet f p p') (added-eq x op2 u w) set,
      )

  -- SUB with the bit S and a destination other than the pc returns 0, sets the flags as CMP does,
  -- and then writes the difference to Rd.
  pub opcode_switch-subtracted :
      (p' : Core) × (opcode_switch 0x2 1 rn rd op2 co p
        ≡ some (0, with_register p' rd (sub32 (visible p rn) op2)))
      × FlagsSet (compared (visible p rn) op2) p p'
  unfolding opcode_switch sub pure ◌>>◌
  opcode_switch-subtracted =
      let x : ℕ = visible p rn in
      let u = visible-lt p rn valid hn in
      let c : ℕ = if ltb x op2 then 0 else 1 in
      let (p', runs, set) =
        update_cpsr-FlagsSet p (sub32 x op2) rd c (sub_overflow x op2) (omega arith) not_pc
          (ground arith) (inl (ground arith)) in
      (
        p',
        written p rn rd op2 co hn hd (sub 1 rn rd op2 co) (sub32 x op2) (
            two_reads p rn rd op2 co hn hd _ (
              after (update_cpsr (sub32 x op2) 1 rd c (sub_overflow x op2))
                (λ _. pure (sub32 x op2)) runs)),
        subst (λ f. FlagsSet f p p') (compared-eq x op2 u w) set,
      )
