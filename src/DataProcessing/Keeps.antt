-- ===== src/DataProcessing/Keeps.antt =====
-- In every regime the data-processing instructions stay in it, do not fault and return 0.
use projet_prog.Base.{
  ℕ, ◌<◌, refl, arith, add32, sub32, not32, bit_and-lt, bit_or-lt, bit_xor-lt, ◌==◌, ◌&&◌,
}
use projet_prog.Registers.{nb_register}
use projet_prog.Core.{Core, M, ◌>>=◌, ◌>>◌, pure, arm_read_register}
use projet_prog.Core.Valid.{
  Regime, Yields, Yields-bind, Yields-then, Yields-pure, Yields-if, Yields-case,
}
use projet_prog.Core.Rules.{
  Word, Any, IsZero, arm_read_register-Yields, arm_write_register-Yields, arm_read_cpsr-Yields,
  arm_read_spsr-Yields, arm_write_cpsr-Yields, arm_current_mode_has_spsr-Yields,
}
use projet_prog.DataProcessing.{write_back, opcode_switch}
use projet_prog.DataProcessing.Alu.{
  update_cpsr, and, eor, sub, rsb, add, adc, sbc, rsc, tst, teq, cmp, cmn, orr, mov, bic, mvn,
}

not32-lt : (x : ℕ) → Word (not32 x)
not32-lt x = omega arith

sub32-lt : (a b : ℕ) → Word (sub32 a b)
sub32-lt a b = omega arith

add32-lt : (a b : ℕ) → Word (add32 a b)
add32-lt a b = omega arith

module _ {F : Type 0} {Inv : Core → Type 0} (R : Regime Inv) where
  update_cpsr-Yields : (dest s rd c v : ℕ) → Yields F Inv Any (update_cpsr dest s rd c v)
  unfolding update_cpsr
  update_cpsr-Yields dest s rd c v =
      Yields-if ((s == 1) && (rd == 15))
        (Yields-bind (arm_current_mode_has_spsr-Yields R) λ has h.
          Yields-if (has == 0) (Yields-pure tt tt)
            (Yields-bind (arm_read_spsr-Yields R) λ spsr w. arm_write_cpsr-Yields R spsr))
        (Yields-if (s == 1)
          (Yields-bind (arm_read_cpsr-Yields R) λ cpsr w. arm_write_cpsr-Yields R _)
          (Yields-pure tt tt))

  -- The end of an operation that returns a value.
  flagged :
      (dest s rd c v : ℕ) {out : ℕ}
      → Word out
      → Yields F Inv Word (update_cpsr dest s rd c v >> pure out)
  flagged dest s rd c v w = Yields-then (update_cpsr-Yields dest s rd c v) (Yields-pure _ w)

  module _ (s rn rd op2 carry_out : ℕ) (hn : rn < nb_register) (hd : rd < nb_register)
      (w : Word op2) where
    -- The start of an operation that reads both registers.
    two_reads :
        {A : Type 0} {Q : A → Type 0} {f : ℕ → ℕ → M A}
        → ((src dest : ℕ) → Word src → Yields F Inv Q (f src dest))
        → Yields F Inv Q
            (arm_read_register rn >>= λ src. arm_read_register rd >>= λ dest. f src dest)
    two_reads k =
        Yields-bind (arm_read_register-Yields R rn hn)
          λ src ws. Yields-bind (arm_read_register-Yields R rd hd) λ dest wd. k src dest ws

    and-Yields : Yields F Inv Word (and s rn rd op2 carry_out)
    unfolding and
    and-Yields = two_reads λ src dest ws. flagged _ _ _ _ _ (bit_and-lt 32 src op2 ws)

    eor-Yields : Yields F Inv Word (eor s rn rd op2 carry_out)
    unfolding eor
    eor-Yields = two_reads λ src dest ws. flagged _ _ _ _ _ (bit_xor-lt 32 src op2 ws w)

    sub-Yields : Yields F Inv Word (sub s rn rd op2 carry_out)
    unfolding sub
    sub-Yields = two_reads λ src dest ws. flagged _ _ _ _ _ (sub32-lt src op2)

    rsb-Yields : Yields F Inv Word (rsb s rn rd op2 carry_out)
    unfolding rsb
    rsb-Yields = two_reads λ src dest ws. flagged _ _ _ _ _ (sub32-lt op2 src)

    add-Yields : Yields F Inv Word (add s rn rd op2 carry_out)
    unfolding add
    add-Yields = two_reads λ src dest ws. flagged _ _ _ _ _ (add32-lt src op2)

    adc-Yields : Yields F Inv Word (adc s rn rd op2 carry_out)
    unfolding adc
    adc-Yields = two_reads λ src dest ws.
        Yields-bind (arm_read_cpsr-Yields R) λ cpsr wc. flagged _ _ _ _ _ (add32-lt _ _)

    sbc-Yields : Yields F Inv Word (sbc s rn rd op2 carry_out)
    unfolding sbc
    sbc-Yields = two_reads λ src dest ws.
        Yields-bind (arm_read_cpsr-Yields R) λ cpsr wc. flagged _ _ _ _ _ (sub32-lt _ _)

    rsc-Yields : Yields F Inv Word (rsc s rn rd op2 carry_out)
    unfolding rsc
    rsc-Yields = two_reads λ src dest ws.
        Yields-bind (arm_read_cpsr-Yields R) λ cpsr wc. flagged _ _ _ _ _ (sub32-lt _ _)

    tst-Yields : Yields F Inv Any (tst s rn rd op2 carry_out)
    unfolding tst
    tst-Yields =
        Yields-bind (arm_read_register-Yields R rn hn) λ src ws. update_cpsr-Yields _ 1 0 _ _

    teq-Yields : Yields F Inv Any (teq s rn rd op2 carry_out)
    unfolding teq
    teq-Yields =
        Yields-bind (arm_read_register-Yields R rn hn) λ src ws. update_cpsr-Yields _ 1 0 _ _

    cmp-Yields : Yields F Inv Any (cmp s rn rd op2 carry_out)
    unfolding cmp
    cmp-Yields =
        Yields-bind (arm_read_register-Yields R rn hn) λ src ws. update_cpsr-Yields _ 1 0 _ _

    cmn-Yields : Yields F Inv Any (cmn s rn rd op2 carry_out)
    unfolding cmn
    cmn-Yields =
        Yields-bind (arm_read_register-Yields R rn hn) λ src ws. update_cpsr-Yields _ 1 0 _ _

    orr-Yields : Yields F Inv Word (orr s rn rd op2 carry_out)
    unfolding orr
    orr-Yields = two_reads λ src dest ws. flagged _ _ _ _ _ (bit_or-lt 32 src op2 ws w)

    mov-Yields : Yields F Inv Word (mov s rn rd op2 carry_out)
    unfolding mov
    mov-Yields = Yields-bind (arm_read_register-Yields R rd hd) λ dest wd. flagged _ _ _ _ _ w

    bic-Yields : Yields F Inv Word (bic s rn rd op2 carry_out)
    unfolding bic
    bic-Yields = two_reads λ src dest ws. flagged _ _ _ _ _ (bit_and-lt 32 src _ ws)

    mvn-Yields : Yields F Inv Word (mvn s rn rd op2 carry_out)
    unfolding mvn
    mvn-Yields =
        Yields-bind (arm_read_register-Yields R rd hd) λ dest wd. flagged _ _ _ _ _ (not32-lt op2)

    back : {f : M ℕ} → Yields F Inv Word f → Yields F Inv IsZero (write_back rd f)
    back y =
        Yields-bind y
          λ dest wd. Yields-then (arm_write_register-Yields R rd dest hd wd) (Yields-pure 0 refl)

    test : {f : M (Unit {0})} → Yields F Inv Any f → Yields F Inv IsZero (f >> pure {A = ℕ} 0)
    test y = Yields-then y (Yields-pure 0 refl)

    pub opcode_switch-Yields :
        (opcode : ℕ)
        → opcode < 16
        → Yields F Inv IsZero (opcode_switch opcode s rn rd op2 carry_out)
    unfolding opcode_switch
    opcode_switch-Yields opcode small =
        Yields-case (opcode == 0x0) (λ _. back and-Yields)
          λ n0.
            Yields-case (opcode == 0x1) (λ _. back eor-Yields)
              λ n1.
                Yields-case (opcode == 0x2) (λ _. back sub-Yields)
                  λ n2.
                    Yields-case (opcode == 0x3) (λ _. back rsb-Yields)
                      λ n3.
                        Yields-case (opcode == 0x4) (λ _. back add-Yields)
                          λ n4.
                            Yields-case (opcode == 0x5) (λ _. back adc-Yields)
                              λ n5.
                                Yields-case (opcode == 0x6) (λ _. back sbc-Yields)
                                  λ n6.
                                    Yields-case (opcode == 0x7) (λ _. back rsc-Yields)
                                      λ n7.
                                        Yields-case (opcode == 0x8) (λ _. test tst-Yields)
                                          λ n8.
                                            Yields-case (opcode == 0x9) (λ _. test teq-Yields)
                                              λ n9.
                                                Yields-case (opcode == 0xa) (λ _. test cmp-Yields)
                                                  λ n10.
                                                    Yields-case (opcode == 0xb)
                                                      (λ _. test cmn-Yields)
                                                      λ n11.
                                                        Yields-case (opcode == 0xc)
                                                          (λ _. back orr-Yields)
                                                          λ n12.
                                                            Yields-case (opcode == 0xd)
                                                            (λ _. back mov-Yields)
                                                            λ n13.
                                                            Yields-case (opcode == 0xe)
                                                            (λ _. back bic-Yields)
                                                            λ n14.
                                                            Yields-case (opcode == 0xf)
                                                            (λ _. back mvn-Yields)
                                                            λ n15. absurd (ground arith)
