-- ===== src/Instruction/Total.antt =====
-- A step on an instruction that does not access the memory always returns.
use projet_prog.Base.{
  ℕ, ◌+◌, ◌/◌, ◌%◌, ◌^◌, ◌<◌, ◌≤◌, ◌≡◌, ◌≢◌, ◌∙◌, refl, inl, inr, arith, bit_and, bit_and_mask,
  ◌>>>◌, u8, add32, ◌==◌, some, if◌then◌else◌, Machine, sym, subst,
}
use projet_prog.Registers.{registers_read, registers_write, assign}
use projet_prog.Memory.{memory_read_word}
use projet_prog.Memory.Word.{memory_read_word-in}
use projet_prog.Core.{Core, M, pure, ◌>>=◌, ◌>>◌, asks, modify, arm_fetch, endianess}
use projet_prog.Core.Valid.{
  IsValid, Regime, Yields, Yields-bind, Yields-pure, Yields-if, Yields-case, Yields-mono,
}
use projet_prog.Core.Rules.{assign-IsWords}
use projet_prog.Core.Regimes.{
  OnlyRegisters, OnlyRegisters-Regime, OnlyRegisters-refl, Returns, Yields-Returns,
}
use projet_prog.Core.Values.{after, asks-eq, onward}
use projet_prog.Conditions.{arm_check_cond}
use projet_prog.Exception.{arm_exception}
use projet_prog.Exception.Outcome.{word_at}
use projet_prog.LoadStore.{arm_coprocessor_load_store}
use projet_prog.DataProcessing.Total.{shift_instruction-Yields, immediate_instruction-Yields}
use projet_prog.Instruction.{instruction_switch, arm_execute_instruction, arm_step}
use projet_prog.Instruction.Keeps.{
  IsResult, IsStepCode, arm_check_cond-Yields, arm_branch-Yields, outcome-IsResult, zero-IsResult,
  unhandled,
}

-- The state after the fetch.
abbrev pub fetched : Core → Core
fetched p = record p {
  cycle_count = add32 p.cycle_count 1;
  reg = assign p.reg 15 (add32 (p.reg 15) 4);
}

-- Bits 27 to 25.
abbrev pub class : ℕ → ℕ
class instruction = instruction / 2 ^ 25 % 8

-- The end of a fetch, after the read of the word.
abbrev conclude : ℕ × ℕ → M (ℕ × ℕ)
conclude result = do modify λ p. record p { cycle_count = add32 p.cycle_count 1 }; pure result

-- A fetch inside the memory returns the word at the pc, moves the pc on by four and counts a cycle.
pub arm_fetch-fetched :
    (p : Core) (old : ℕ)
    → IsValid p
    → p.mem.taille ≤ 2 ^ 32
    → p.reg 15 + 3 < p.mem.taille
    → arm_fetch old p ≡ some ((0, word_at p (p.reg 15)), fetched p)
unfolding arm_fetch registers_read registers_write asks modify pure ◌>>=◌ ◌>>◌ word_at
arm_fetch-fetched p old v small inside =
    let moved : Core = record p { reg = assign p.reg 15 (add32 (p.reg 15) 4) } in
    let word = λ (q : Core). memory_read_word q.mem (p.reg 15) old endianess in
    after {p = moved} (asks word) conclude
      (asks-eq word (memory_read_word-in p.mem (p.reg 15) small v.bytes inside old endianess))

module _ {F : Type 0} {Inv : Core → Type 0} (R : Regime Inv) ⦃m : Machine⦄ where
  register_instruction-Yields :
      (type ins : ℕ) → type ≢ 2 → type ≢ 4 → Yields F Inv IsResult (instruction_switch type ins)
  unfolding instruction_switch arm_coprocessor_load_store
  register_instruction-Yields type ins not_single not_block =
      Yields-if (type == 0) (Yields-mono (shift_instruction-Yields R ins) zero-IsResult) (
        Yields-if (type == 1) (Yields-mono (immediate_instruction-Yields R ins) zero-IsResult) (
          Yields-case (type == 2) (λ e. absurd (ground arith))
            λ _.
              Yields-case (type == 4) (λ e. absurd (ground arith))
                λ _. Yields-if (type == 6) (Yields-pure _ (inr (inl refl))) (
                  Yields-if (type == 5) (Yields-mono (arm_branch-Yields R ins) outcome-IsResult)
                    (Yields-pure _ (inr (inl refl))))))

-- What a step does after the fetch.
abbrev pub execute : ⦃m : Machine⦄ → ℕ → M ℕ
execute ins = do
  passed ← arm_check_cond ins
  if passed == 0 then pure 0 else instruction_switch (bit_and (ins >>> 25) 7) ins

abbrev pub finish : ⦃m : Machine⦄ → ℕ → M ℕ
finish result = if result == 0 then pure result else arm_exception (u8 result)

execute-Yields :
    {F : Type 0} {Inv : Core → Type 0} (R : Regime Inv) ⦃m : Machine⦄ (ins : ℕ)
    → class ins ≢ 2
    → class ins ≢ 4
    → Yields F Inv IsStepCode (execute ins >>= finish)
execute-Yields R ins not_single not_block =
    let type = bit_and_mask 3 (ins >>> 25) in
    Yields-bind
      (Yields-bind (arm_check_cond-Yields R ins) λ passed _.
        Yields-if {P = IsResult} (passed == 0) (Yields-pure 0 (inl refl)) (
          register_instruction-Yields R _ ins (λ e. not_single (sym type ∙ e))
            (λ e. not_block (sym type ∙ e))))
      λ r h. Yields-case (r == 0) (λ e. Yields-pure _ (ground arith)) λ e. unhandled r h e

-- Inside the memory, a step is a fetch and the execution of the fetched word.
pub arm_step-fetched :
    ⦃m : Machine⦄ (p : Core)
    → IsValid p
    → p.mem.taille ≤ 2 ^ 32
    → p.reg 15 + 3 < p.mem.taille
    → arm_step p ≡ (execute (word_at p (p.reg 15)) >>= finish) (fetched p)
unfolding arm_step arm_execute_instruction
arm_step-fetched ⦃m⦄ p v small inside =
    onward arm_execute_instruction (execute (word_at p (p.reg 15))) finish
      (after (arm_fetch m.junk) _ (arm_fetch-fetched p m.junk v small inside))

fetched-IsValid : (p : Core) → IsValid p → IsValid (fetched p)
fetched-IsValid p v = record {
  words = assign-IsWords p.reg 15 (add32 (p.reg 15) 4) v.words (omega arith);
  bytes = v.bytes;
}

-- From a valid state whose pc points at a word inside the memory that is not a load or store, a
-- step returns success, undefined instruction or the byte of -1, and after the fetch changes
-- nothing but registers.
pub arm_step-OnlyRegisters :
    ⦃m : Machine⦄ (p : Core)
    → IsValid p
    → p.mem.taille ≤ 2 ^ 32
    → p.reg 15 + 3 < p.mem.taille
    → class (word_at p (p.reg 15)) ≢ 2
    → class (word_at p (p.reg 15)) ≢ 4
    → Returns IsStepCode (OnlyRegisters (fetched p)) (arm_step p)
arm_step-OnlyRegisters p v small inside not_single not_block =
    subst (Returns IsStepCode (OnlyRegisters (fetched p))) (sym (arm_step-fetched p v small inside))
      (Yields-Returns
        (execute-Yields (OnlyRegisters-Regime (fetched p)) (word_at p (p.reg 15)) not_single
          not_block)
        (OnlyRegisters-refl (fetched p) (fetched-IsValid p v)))
