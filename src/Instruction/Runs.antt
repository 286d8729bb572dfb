-- ===== src/Instruction/Runs.antt =====
-- Whole steps: what the state is after an instruction of a kind.
use projet_prog.Base.{
  ℕ, ◌+◌, ◌*◌, ◌⊎◌, ◌/◌, ◌%◌, ◌^◌, ◌<◌, ◌≤◌, ◌≡◌, ◌∙◌, refl, arith, bit_and, bit_and_mask, ◌>>>◌,
  some, Machine,
}
use projet_prog.Core.{Core, pure, ◌>>=◌, asks, arm_read_cpsr}
use projet_prog.Core.Valid.{IsValid}
use projet_prog.Core.Values.{visible, with_register, after}
use projet_prog.Conditions.{arm_check_cond}
use projet_prog.Conditions.Meaning.{Condition, code, expected, flags, arm_check_cond-meaning}
use projet_prog.DataProcessing.{arm_data_processing_immediate_msr}
use projet_prog.DataProcessing.Shifter.{rotate}
use projet_prog.DataProcessing.Shifted.{rotated, rotate_immediate-rotated}
use projet_prog.DataProcessing.Meaning.{
  Operation, opcode_of, value_of, carry_in, opcode_switch-value,
}
use projet_prog.Registers.{registers_read_cpsr}
use projet_prog.Branch.{arm_branch}
use projet_prog.Branch.Target.{branched, arm_branch-branched}
use projet_prog.Exception.Outcome.{word_at}
use projet_prog.Instruction.{instruction_switch, arm_step}
use projet_prog.Instruction.Total.{class, fetched, execute, finish, arm_step-fetched}

-- The pc is inside the memory of a valid state.
pub record CanFetch (p : Core) : Type 0 where
  pub valid : IsValid p
  pub small : p.mem.taille ≤ 2 ^ 32
  pub inside : p.reg 15 + 3 < p.mem.taille

-- The word that the next step executes.
abbrev pub next : Core → ℕ
next p = word_at p (p.reg 15)

module _ ⦃m : Machine⦄ (ins : ℕ) (p : Core) where
  to_branch : class ins ≡ 5 → instruction_switch (bit_and (ins >>> 25) 7) ins p ≡ arm_branch ins p
  unfolding instruction_switch
  to_branch c = rw (bit_and_mask 3 (ins >>> 25), c) refl

  to_immediate :
      class ins ≡ 1
      → instruction_switch (bit_and (ins >>> 25) 7) ins p ≡ arm_data_processing_immediate_msr ins p
  unfolding instruction_switch
  to_immediate c = rw (bit_and_mask 3 (ins >>> 25), c) refl

  immediate-value :
      (o : Operation)
      → ins / 2 ^ 21 % 16 ≡ opcode_of o
      → ins / 2 ^ 20 % 2 ≡ 0
      → (0 < ins / 2 ^ 8 % 16) ⊎ ((x : ℕ) → x < 2 ^ 8 → m.shl_wide x 32 ≡ x)
      → arm_data_processing_immediate_msr ins p
        ≡ some (
          0,
          with_register p (ins / 2 ^ 12 % 16) (
              value_of o
                (visible p (ins / 2 ^ 16 % 16))
                (rotated (ins % 2 ^ 8) (2 * (ins / 2 ^ 8 % 16)))
                (carry_in p)),
        )
  unfolding arm_data_processing_immediate_msr rotate pure ◌>>=◌ arm_read_cpsr asks
  immediate-value o op quiet turns =
      rw
        (
          bit_and_mask 4 (ins >>> 21),
          bit_and_mask 1 (ins >>> 20),
          bit_and_mask 4 (ins >>> 16),
          bit_and_mask 4 (ins >>> 12),
          bit_and_mask 4 (ins >>> 8),
          bit_and_mask 8 ins,
          op,
          quiet,
          rotate_immediate-rotated (ins % 2 ^ 8) (ins / 2 ^ 8 % 16) (omega arith) (omega arith)
              turns,
        )
        (opcode_switch-value o p (ins / 2 ^ 16 % 16) (ins / 2 ^ 12 % 16) _ _ (omega arith)
          (omega arith))

module _ ⦃m : Machine⦄ (k : Condition) (p : Core) (h : CanFetch p)
    (c : next p / 2 ^ 28 % 16 ≡ code k) where
  tested : arm_check_cond (next p) (fetched p) ≡ some (expected k (flags p), fetched p)
  tested = arm_check_cond-meaning k (next p) (fetched p) c

  succeeded : {q : Core} → execute (next p) (fetched p) ≡ some (0, q) → arm_step p ≡ some (0, q)
  unfolding pure
  succeeded e = arm_step-fetched p h.valid h.small h.inside ∙ after (execute (next p)) finish e

  -- A step on an instruction whose condition does not pass is the fetch alone.
  pub arm_step-skipped : expected k (flags p) ≡ 0 → arm_step p ≡ some (0, fetched p)
  unfolding pure
  arm_step-skipped fails = succeeded (after (arm_check_cond (next p)) _ tested ∙ rw fails refl)

  -- The execution of an instruction whose condition answers 1.
  passed :
      expected k (flags p) ≡ 1
      → execute (next p) (fetched p)
        ≡ instruction_switch (bit_and (next p >>> 25) 7) (next p) (fetched p)
  passed passes = after (arm_check_cond (next p)) _ tested ∙ rw passes refl

  -- A step on a branch whose condition passes is the fetch and the jump.
  pub arm_step-branched :
      expected k (flags p) ≡ 1
      → class (next p) ≡ 5
      → arm_step p ≡ some (0, branched (next p) (fetched p))
  arm_step-branched passes c5 = succeeded (
      passed passes
      ∙ to_branch (next p) (fetched p) c5
      ∙ arm_branch-branched k (next p) (fetched p) c
      ∙ rw passes refl)

  -- A step from a valid state with the pc inside the memory, on a data-processing instruction that
  -- writes a register, with an immediate operand, without the bit S and with a condition that
  -- passes, is the fetch and the write to Rd of the value that the architecture gives the operation,
  -- for the low byte of the instruction rotated right by twice its rotation field. The field is not
  -- 0, or the host shifts a byte by 32 places to itself.
  pub arm_step-value :
      (o : Operation)
      → expected k (flags p) ≡ 1
      → class (next p) ≡ 1
      → next p / 2 ^ 21 % 16 ≡ opcode_of o
      → next p / 2 ^ 20 % 2 ≡ 0
      → (0 < next p / 2 ^ 8 % 16) ⊎ ((x : ℕ) → x < 2 ^ 8 → m.shl_wide x 32 ≡ x)
      → arm_step p
        ≡ some (
          0,
          with_register (fetched p) (next p / 2 ^ 12 % 16) (
              value_of o
                (visible (fetched p) (next p / 2 ^ 16 % 16))
                (rotated (next p % 2 ^ 8) (2 * (next p / 2 ^ 8 % 16)))
                (carry_in p)),
        )
  unfolding registers_read_cpsr
  arm_step-value o passes c1 op quiet turns = succeeded (
      passed passes
      ∙ to_immediate (next p) (fetched p) c1
      ∙ immediate-value (next p) (fetched p) o op quiet turns)
