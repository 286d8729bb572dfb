-- ===== src/DataProcessing/Logic.antt =====
-- The six operations without arithmetic, with the bit S: the result and the flags.
use projet_prog.Base.{
  ℕ, ◌^◌, ◌<◌, ◌≡◌, ◌≢◌, ◌∙◌, ap, inr, refl, arith, not32, bit_and, bit_and-lt_right, bit_or,
  bit_or-lt, some,
}
use projet_prog.Core.{Core, pure, ◌>>◌, arm_read_register}
use projet_prog.Core.Valid.{IsValid}
use projet_prog.Core.Values.{visible, with_register, arm_read_register-eq, after}
use projet_prog.Registers.{nb_register}
use projet_prog.DataProcessing.{write_back, opcode_switch}
use projet_prog.DataProcessing.Alu.{update_cpsr, no_v, and, eor, orr, mov, bic, mvn}
use projet_prog.DataProcessing.Compare.{visible-lt}
use projet_prog.DataProcessing.Flags.{FlagsSet, result_flags, update_cpsr-FlagsSet}
use projet_prog.DataProcessing.Meaning.{
  Operation, and_op, eor_op, orr_op, mov_op, bic_op, mvn_op, opcode_of, value_of, operation,
  written, two_reads,
}

pub data Logical : Operation → Type 0 where
  logical_and : Logical and_op
  logical_eor : Logical eor_op
  logical_orr : Logical orr_op
  logical_mov : Logical mov_op
  logical_bic : Logical bic_op
  logical_mvn : Logical mvn_op

-- What N and Z are computed from: the old value of Rd for AND and EOR, the result for the others.
abbrev pub flagged : {k : Operation} → Logical k → (src dest op2 : ℕ) → ℕ
flagged logical_and src dest op2 = dest
flagged logical_eor src dest op2 = dest
flagged logical_orr src dest op2 = value_of orr_op src op2 0
flagged logical_mov src dest op2 = op2
flagged logical_bic src dest op2 = value_of bic_op src op2 0
flagged logical_mvn src dest op2 = not32 op2

flagged-lt :
    {k : Operation} (l : Logical k) (src dest op2 : ℕ)
    → src < 2 ^ 32
    → dest < 2 ^ 32
    → op2 < 2 ^ 32
    → flagged l src dest op2 < 2 ^ 32
flagged-lt logical_and src dest op2 a b c = b
flagged-lt logical_eor src dest op2 a b c = b
flagged-lt logical_orr src dest op2 a b c = bit_or-lt 32 src op2 a c
flagged-lt logical_mov src dest op2 a b c = c
flagged-lt logical_bic src dest op2 a b c = bit_and-lt_right 32 src (not32 op2) (omega arith)
flagged-lt logical_mvn src dest op2 a b c = omega arith

module _ (p : Core) (rn rd op2 co : ℕ) (hn : rn < nb_register) (hd : rd < nb_register) where
  operation-flagged :
      {k : Operation} {p' : Core} (l : Logical k)
      → update_cpsr (flagged l (visible p rn) (visible p rd) op2) 1 rd co no_v p ≡ some (tt, p')
      → operation k 1 rn rd op2 co p ≡ some (value_of k (visible p rn) op2 0, p')
  unfolding and eor orr mov bic mvn pure ◌>>◌
  operation-flagged logical_and e =
      two_reads p rn rd op2 co hn hd _ (after (update_cpsr (visible p rd) 1 rd co no_v) _ e)
  operation-flagged logical_eor e =
      two_reads p rn rd op2 co hn hd _ (after (update_cpsr (visible p rd) 1 rd co no_v) _ e)
  operation-flagged logical_orr e =
      two_reads p rn rd op2 co hn hd _
        (after (update_cpsr (bit_or (visible p rn) op2) 1 rd co no_v) _ e)
  operation-flagged logical_mov e =
      after (arm_read_register rd) _ (arm_read_register-eq p rd hd)
      ∙ after (update_cpsr op2 1 rd co no_v) _ e
  operation-flagged logical_bic e =
      two_reads p rn rd op2 co hn hd _
        (after (update_cpsr (bit_and (visible p rn) (not32 op2)) 1 rd co no_v) _ e)
  operation-flagged logical_mvn e =
      after (arm_read_register rd) _ (arm_read_register-eq p rd hd)
      ∙ after (update_cpsr (not32 op2) 1 rd co no_v) _ e

chosen :
    {k : Operation} (l : Logical k) (s rn rd op2 co : ℕ)
    → opcode_switch (opcode_of k) s rn rd op2 co ≡ write_back rd (operation k s rn rd op2 co)
unfolding opcode_switch
chosen logical_and s rn rd op2 co = refl
chosen logical_eor s rn rd op2 co = refl
chosen logical_orr s rn rd op2 co = refl
chosen logical_mov s rn rd op2 co = refl
chosen logical_bic s rn rd op2 co = refl
chosen logical_mvn s rn rd op2 co = refl

-- AND, EOR, ORR, MOV, BIC and MVN with the bit S and a destination other than the pc return 0, set
-- C to the carry of the shifter and clear V, set N and Z from the result but for AND and EOR, which
-- set them from the old value of Rd, and then write the value that the architecture gives them to Rd.
pub opcode_switch-flagged :
    {k : Operation} (l : Logical k) (p : Core) (rn rd op2 co : ℕ)
    → IsValid p
    → rn < nb_register
    → rd < nb_register
    → rd ≢ 15
    → op2 < 2 ^ 32
    → co < 2
    → (p' : Core) × (opcode_switch (opcode_of k) 1 rn rd op2 co p
        ≡ some (0, with_register p' rd (value_of k (visible p rn) op2 0)))
      × FlagsSet (result_flags (flagged l (visible p rn) (visible p rd) op2) co no_v) p p'
opcode_switch-flagged {k} l p rn rd op2 co valid hn hd not_pc w c2 =
    let value = flagged l (visible p rn) (visible p rd) op2 in
    let (p', runs, set) =
      update_cpsr-FlagsSet p value rd co no_v
        (flagged-lt l (visible p rn) (visible p rd) op2 (visible-lt p rn valid hn)
          (visible-lt p rd valid hd) w)
        not_pc c2 (inr refl) in
    (
      p',
      ap (λ f. f p) (chosen l 1 rn rd op2 co)
          ∙ written p rn rd op2 co hn hd (operation k 1 rn rd op2 co)
              (value_of k (visible p rn) op2 0) (operation-flagged p rn rd op2 co hn hd l runs),
      set,
    )
