-- ===== src/Exception/Outcome.antt =====
-- What arm_exception and arm_create do, by exception.
use projet_prog.Base.{
  ℕ, ◌+◌, ◌*◌, ◌%◌, ◌^◌, ◌<◌, ◌≤◌, ◌≡◌, ◌≢◌, ◌∙◌, refl, arith, u8, u32, sub32, some, [], ◌∷◌, ◌++◌,
  ◌==◌, if◌then◌else◌, Machine, bit_and_mask, ==_iff, false, Bool-cases, inl, inr,
}
use projet_prog.Core.{
  Core, M, pure, ◌>>=◌, ◌>>◌, asks, modify, arm_read_register, arm_read_word, arm_write_cpsr,
  arm_write_register, endianess,
}
use projet_prog.Core.Valid.{IsValid}
use projet_prog.Core.Values.{visible, arm_read_register-eq, arm_write_register-eq, after, asks-eq}
use projet_prog.Memory.{Memory, memory_read_word, memory_get_size}
use projet_prog.Memory.Word.{memory_read_word-in}
use projet_prog.Registers.{Registers, assign, registers_write_cpsr}
use projet_prog.Exception.{
  reset, software_interrupt, end_simulation, reset_cpsr, putchar, reset_or_return, arm_exception,
  arm_create,
}

-- The state after a reset: supervisor mode with interrupts disabled, and the pc at 0.
abbrev pub after_reset : Core → Core
after_reset p = record p { reg = assign (assign p.reg 16 reset_cpsr) 15 0 }

abbrev restart : M ℕ
restart = do arm_write_register 15 0; pure reset

reset_or_return-reset : (p : Core) → reset_or_return reset p ≡ some (reset, after_reset p)
unfolding reset_or_return arm_write_cpsr modify registers_write_cpsr ◌>>◌ pure
reset_or_return-reset p =
    let q : Core = record p { reg = assign p.reg 16 reset_cpsr } in
    after {p = p} {p' = q} (arm_write_cpsr reset_cpsr) (λ _. restart) refl
    ∙ after (arm_write_register 15 0) (λ _. pure reset) (arm_write_register-eq q 15 (omega arith) 0)

-- Reading the word at a big-endian address of the processor.
unfoldable pub word_at : Core → ℕ → ℕ
word_at p a =
    p.mem.value a * 2 ^ 24
    + p.mem.value (a + 1) * 2 ^ 16
    + p.mem.value (a + 2) * 2 ^ 8
    + p.mem.value (a + 3)

pub arm_read_word-eq :
    (p : Core) (a old : ℕ)
    → IsValid p
    → p.mem.taille ≤ 2 ^ 32
    → a + 3 < p.mem.taille
    → arm_read_word a old p ≡ some ((0, word_at p a), p)
unfolding arm_read_word asks word_at
arm_read_word-eq p a old v small inside =
    asks-eq (λ (q : Core). memory_read_word q.mem a old endianess)
      (memory_read_word-in p.mem a small v.bytes inside old endianess)

-- The comment field of the software interrupt that the pc has just passed.
abbrev pub swi_number : Core → ℕ
swi_number p = word_at p (sub32 (visible p 15) 8) % 2 ^ 24

-- The switch on the number.
abbrev service : ℕ → M ℕ
service instruction =
    if instruction == 0x123456
    then pure end_simulation
    else if instruction == 1
    then (do value ← arm_read_register 0; putchar value; pure 0)
    else reset_or_return software_interrupt

abbrev print : ℕ → M ℕ
print value = do putchar value; pure 0

served :
    (p : Core) (n : ℕ)
    → service n p ≡ (
        if n == 0x123456
        then some (end_simulation, p)
        else if n == 1
        then some (0, record p { stdout = p.stdout ++ (u8 (p.reg 0) ∷ []) })
        else some (software_interrupt, p))
unfolding reset_or_return putchar modify pure ◌>>=◌ ◌>>◌
served p n = elim (Bool-cases (n == 0x123456)) [
  | inl ends ↦ rw ends refl
  | inr goes_on ↦ rw goes_on (elim (Bool-cases (n == 1)) [
    | inl prints ↦
        rw prints (after (arm_read_register 0) print (arm_read_register-eq p 0 (omega arith)))
    | inr other ↦ rw other refl
  ])
]

module _ ⦃m : Machine⦄ where
  -- An exception other than the reset and the software interrupt is handed back and changes
  -- nothing; the reset is handed back with the pc at 0 and the cpsr at 0x1D3, the rest unchanged.
  pub arm_exception-handed_back :
      (e : ℕ) (p : Core)
      → e ≢ software_interrupt
      → arm_exception e p ≡ some (e, if e == reset then after_reset p else p)
  unfolding arm_exception reset_or_return pure
  arm_exception-handed_back e p h =
      let other : (e == software_interrupt) ≡ false = ground arith in
      rw other (elim (Bool-cases (e == reset)) [
        | inl is ↦ rw (is, (==_iff e reset).0 is) (reset_or_return-reset p)
        | inr not_reset ↦ rw not_reset refl
      ])

  -- A software interrupt whose instruction lies in the memory ends the simulation for the number
  -- 0x123456, prints the low byte of r0 for the number 1, and is handed back for any other.
  pub arm_exception-swi :
      (p : Core)
      → IsValid p
      → p.mem.taille ≤ 2 ^ 32
      → sub32 (visible p 15) 8 + 3 < p.mem.taille
      → arm_exception software_interrupt p ≡ (
          if swi_number p == 0x123456
          then some (end_simulation, p)
          else if swi_number p == 1
          then some (0, record p { stdout = p.stdout ++ (u8 (p.reg 0) ∷ []) })
          else some (software_interrupt, p))
  unfolding arm_exception
  arm_exception-swi p v small inside =
      after (arm_read_register 15) _ (arm_read_register-eq p 15 (omega arith))
      ∙ after (arm_read_word (sub32 (visible p 15) 8) m.junk) _
          (arm_read_word-eq p (sub32 (visible p 15) 8) m.junk v small inside)
      ∙ rw (bit_and_mask 24 (word_at p (sub32 (visible p 15) 8))) (served p (swi_number p))

  -- A processor is created with no cycle counted and nothing printed, its pc at 0, its stack
  -- pointer at the size of the memory, its cpsr at 0x1D3, and the other registers as given.
  pub arm_create-state :
      (reg : Registers) (mem : Memory)
      → arm_create reg mem
        ≡ some (
          tt,
          record {
            cycle_count = 0;
            reg = assign (assign (assign reg 16 reset_cpsr) 15 0) 13 (u32 mem.taille);
            mem = mem;
            stdout = [];
          },
        )
  unfolding arm_create memory_get_size ◌>>◌
  arm_create-state reg mem =
      let start : Core = record { cycle_count = 0; reg = reg; mem = mem; stdout = [] } in
      after (arm_exception reset) (λ _. arm_write_register 13 (u32 mem.taille))
        (arm_exception-handed_back reset start (ground arith))
      ∙ arm_write_register-eq (after_reset start) 13 (omega arith) (u32 mem.taille)
