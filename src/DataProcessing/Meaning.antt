-- ===== src/DataProcessing/Meaning.antt =====
-- What the twelve operations that write a register compute, without and with the flags.
use projet_prog.Base.{
  ℕ, ◌-◌, ◌<◌, ◌≡◌, ◌∙◌, refl, arith, bit_and, bit_or, bit_xor, add32, sub32, not32, ◌>>>◌,
  bit_and_mask, some, Option,
}
use projet_prog.Core.{
  Core, M, pure, ◌>>=◌, ◌>>◌, arm_read_register, arm_write_register, arm_read_cpsr,
}
use projet_prog.Core.Values.{
  visible, with_register, arm_read_register-eq, arm_write_register-eq, after, arm_read_cpsr-eq,
}
use projet_prog.Registers.{nb_register, registers_read_cpsr}
use projet_prog.DataProcessing.{write_back, opcode_switch}
use projet_prog.DataProcessing.Alu.{
  update_cpsr, and, eor, sub, rsb, add, adc, sbc, rsc, orr, mov, bic, mvn,
}

-- The operations with a destination register.
pub data Operation : Type 0 where
  and_op eor_op sub_op rsb_op add_op adc_op sbc_op rsc_op orr_op mov_op bic_op mvn_op : Operation

abbrev pub opcode_of : Operation → ℕ
opcode_of and_op = 0x0
opcode_of eor_op = 0x1
opcode_of sub_op = 0x2
opcode_of rsb_op = 0x3
opcode_of add_op = 0x4
opcode_of adc_op = 0x5
opcode_of sbc_op = 0x6
opcode_of rsc_op = 0x7
opcode_of orr_op = 0xC
opcode_of mov_op = 0xD
opcode_of bic_op = 0xE
opcode_of mvn_op = 0xF

-- The value that the architecture gives each, from Rn, the shifter operand and the flag C.
abbrev pub value_of : Operation → (src op2 carry : ℕ) → ℕ
value_of and_op src op2 carry = bit_and src op2
value_of eor_op src op2 carry = bit_xor src op2
value_of sub_op src op2 carry = sub32 src op2
value_of rsb_op src op2 carry = sub32 op2 src
value_of add_op src op2 carry = add32 src op2
value_of adc_op src op2 carry = add32 (add32 src op2) carry
value_of sbc_op src op2 carry = sub32 (sub32 src op2) (1 - carry)
value_of rsc_op src op2 carry = sub32 (sub32 op2 src) (1 - carry)
value_of orr_op src op2 carry = bit_or src op2
value_of mov_op src op2 carry = op2
value_of bic_op src op2 carry = bit_and src (not32 op2)
value_of mvn_op src op2 carry = not32 op2

-- The function of the source for each.
abbrev pub operation : Operation → (s rn rd op2 carry_out : ℕ) → M ℕ
operation and_op = and
operation eor_op = eor
operation sub_op = sub
operation rsb_op = rsb
operation add_op = add
operation adc_op = adc
operation sbc_op = sbc
operation rsc_op = rsc
operation orr_op = orr
operation mov_op = mov
operation bic_op = bic
operation mvn_op = mvn

-- The flag C as an instruction reads it.
abbrev pub carry_in : Core → ℕ
carry_in p = bit_and (registers_read_cpsr p.reg >>> 29) 1

module _ (p : Core) (rn rd op2 co : ℕ) (hn : rn < nb_register) (hd : rd < nb_register) where
  pub written :
      (f : M ℕ) (v : ℕ) {p' : Core}
      → f p ≡ some (v, p')
      → write_back rd f p ≡ some (0, with_register p' rd v)
  unfolding pure ◌>>◌
  written f v {p'} e =
      after f _ e ∙ after (arm_write_register rd v) (λ _. pure 0) (arm_write_register-eq p' rd hd v)

  -- The two reads with which an operation starts.
  pub two_reads :
      (f : ℕ → ℕ → M ℕ) {o : Option (ℕ × Core)}
      → f (visible p rn) (visible p rd) p ≡ o
      → (arm_read_register rn >>= λ src. arm_read_register rd >>= λ dest. f src dest) p ≡ o
  two_reads f e =
      after (arm_read_register rn) _ (arm_read_register-eq p rn hn)
      ∙ after (arm_read_register rd) (f (visible p rn)) (arm_read_register-eq p rd hd)
      ∙ e

  -- The end of an operation without the bit S.
  quiet : (dest c v value : ℕ) → (update_cpsr dest 0 rd c v >> pure value) p ≡ some (value, p)
  unfolding update_cpsr pure ◌>>=◌ ◌>>◌
  quiet dest c v value = refl

  not_carry-eq : bit_and (not32 (carry_in p)) 1 ≡ 1 - carry_in p
  not_carry-eq = omega (
    arith,
    bit_and_mask 1 (not32 (carry_in p)),
    bit_and_mask 1 (registers_read_cpsr p.reg >>> 29),
  )

  -- The third read of an operation with carry.
  with_carry :
      (f : ℕ → M ℕ) (v : ℕ)
      → f (registers_read_cpsr p.reg) p ≡ some (v, p)
      → (arm_read_cpsr >>= f) p ≡ some (v, p)
  with_carry f v e = after arm_read_cpsr f (arm_read_cpsr-eq p) ∙ e

  operation-eq :
      (k : Operation)
      → operation k 0 rn rd op2 co p ≡ some (value_of k (visible p rn) op2 (carry_in p), p)
  unfolding and eor sub rsb add adc sbc rsc orr mov bic mvn
  operation-eq and_op = two_reads _ (quiet _ _ _ _)
  operation-eq eor_op = two_reads _ (quiet _ _ _ _)
  operation-eq sub_op = two_reads _ (quiet _ _ _ _)
  operation-eq rsb_op = two_reads _ (quiet _ _ _ _)
  operation-eq add_op = two_reads _ (quiet _ _ _ _)
  operation-eq adc_op = two_reads _ (with_carry _ _ (quiet _ _ _ _))
  operation-eq sbc_op = rw (← not_carry-eq) (two_reads _ (with_carry _ _ (quiet _ _ _ _)))
  operation-eq rsc_op = rw (← not_carry-eq) (two_reads _ (with_carry _ _ (quiet _ _ _ _)))
  operation-eq orr_op = two_reads _ (quiet _ _ _ _)
  operation-eq mov_op =
      after (arm_read_register rd) _ (arm_read_register-eq p rd hd) ∙ quiet _ _ _ _
  operation-eq bic_op = two_reads _ (quiet _ _ _ _)
  operation-eq mvn_op =
      after (arm_read_register rd) _ (arm_read_register-eq p rd hd) ∙ quiet _ _ _ _

-- Each of the twelve operations that write a register, run without the bit S, succeeds, puts the
-- value that the architecture gives it into Rd, and changes nothing else in the state.
pub opcode_switch-value :
    (k : Operation) (p : Core) (rn rd op2 co : ℕ)
    → rn < nb_register
    → rd < nb_register
    → opcode_switch (opcode_of k) 0 rn rd op2 co p
      ≡ some (0, with_register p rd (value_of k (visible p rn) op2 (carry_in p)))
unfolding opcode_switch
opcode_switch-value k p rn rd op2 co hn hd =
    chosen k ∙ written p rn rd op2 co hn hd _ _ (operation-eq p rn rd op2 co hn hd k)
  where
    chosen :
        (k : Operation)
        → opcode_switch (opcode_of k) 0 rn rd op2 co p
          ≡ write_back rd (operation k 0 rn rd op2 co) p
    chosen and_op = refl
    chosen eor_op = refl
    chosen sub_op = refl
    chosen rsb_op = refl
    chosen add_op = refl
    chosen adc_op = refl
    chosen sbc_op = refl
    chosen rsc_op = refl
    chosen orr_op = refl
    chosen mov_op = refl
    chosen bic_op = refl
    chosen mvn_op = refl
