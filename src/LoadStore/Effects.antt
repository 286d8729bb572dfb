-- ===== src/LoadStore/Effects.antt =====
-- What one transfer does to the registers and the memory.
use projet_prog.Base.{
  ℕ, ◌+◌, ◌^◌, ◌<◌, ◌≤◌, ◌≡◌, ◌≢◌, ◌∙◌, refl, arith, bit_and, ◌>>>◌, bit_and-lt_right, u16, some,
  ◌==◌, false, if◌then◌else◌, Machine, minus_one,
}
use projet_prog.Base.Fault.{After, MayFault}
use projet_prog.Memory.{memory_write_half}
use projet_prog.Memory.Half.{half_stored, memory_write_half-in}
use projet_prog.Memory.Reads.{IsCode}
use projet_prog.Core.{
  Core, pure, ◌>>◌, asks, arm_read_register, arm_write_register, arm_read_word, arm_write_half,
  put_mem, modify, endianess,
}
use projet_prog.Core.Valid.{IsValid}
use projet_prog.Core.Regimes.{OnlyRegisters, OnlyRegisters-Regime, OnlyRegisters-refl}
use projet_prog.Core.Values.{
  with_register, arm_read_register-eq, arm_write_register-eq, after, asks-eq,
}
use projet_prog.Exception.Outcome.{word_at, arm_read_word-eq}
use projet_prog.LoadStore.Single.{source_field, dest_field, ldr, strh}
use projet_prog.LoadStore.Store.{str}
use projet_prog.LoadStore.Keeps.{str-Yields}

-- STR, where it does not fault, stores nothing: memory, output and cycle count stay as they were,
-- and only registers may change.
pub str-OnlyRegisters :
    ⦃m : Machine⦄ (ins : ℕ) (p : Core)
    → IsValid p
    → After MayFault (λ (r : ℕ × Core). IsCode r.0 × OnlyRegisters p r.1) (str ins p)
str-OnlyRegisters ins p v = (str-Yields (OnlyRegisters-Regime p) ins).run p (OnlyRegisters-refl p v)

-- A register that a transfer can name.
pub named : (p : Core) (x : ℕ) → arm_read_register (bit_and x 4) p ≡ some (p.reg (bit_and x 4), p)
named p x =
    let small = bit_and-lt_right 3 x 4 (omega arith) in
    let not_pc : (bit_and x 4 == 15) ≡ false = ground arith in
    arm_read_register-eq p (bit_and x 4) (omega (arith, small)) ∙ rw not_pc refl

-- LDR at an address inside the memory returns 0 and puts the big-endian word at the base register
-- into the destination, both registers taken from one bit of their fields; nothing else changes.
pub ldr-word_at :
    ⦃m : Machine⦄ (ins : ℕ) (p : Core)
    → ins ≢ 0
    → IsValid p
    → p.mem.taille ≤ 2 ^ 32
    → p.reg (source_field ins) + 3 < p.mem.taille
    → ldr ins p ≡ some (0, with_register p (dest_field ins) (word_at p (p.reg (source_field ins))))
unfolding ldr pure ◌>>◌
ldr-word_at ⦃m⦄ ins p nonzero v small inside =
    let address = p.reg (source_field ins) in
    let some_ins : (ins == 0) ≡ false = ground arith in
    let fits = bit_and-lt_right 3 (ins >>> 12) 4 (omega arith) in
    rw some_ins (
      after (arm_read_register (source_field ins)) _ (named p (ins >>> 16))
      ∙ after (arm_read_word address m.junk) _ (arm_read_word-eq p address m.junk v small inside)
      ∙ after (arm_write_register (dest_field ins) (word_at p address)) (λ _. pure 0)
          (arm_write_register-eq p (dest_field ins) (omega (arith, fits)) (word_at p address)))

-- STRH stores the low half of the register numbered (ins >> 16) & 4 at the value of the register
-- numbered (ins >> 12) & 4, each r0 or r4 whatever the fields Rn and Rd name. For a word of the
-- instruction that is not 0 and an address inside a memory of at most 4 GiB it returns 0, the most
-- significant byte comes first, and nothing else changes.
pub strh-half_stored :
    (ins : ℕ) (p : Core)
    → ins ≢ 0
    → IsValid p
    → p.mem.taille ≤ 2 ^ 32
    → p.reg (dest_field ins) + 1 < p.mem.taille
    → strh ins p
      ≡ some (
        0,
        record p {
          mem =
              half_stored p.mem (p.reg (dest_field ins)) (u16 (p.reg (source_field ins))) endianess;
        },
      )
unfolding strh arm_write_half modify pure ◌>>◌
strh-half_stored ins p nonzero v small inside =
    let address = p.reg (dest_field ins) in
    let value = u16 (p.reg (source_field ins)) in
    let some_ins : (ins == 0) ≡ false = ground arith in
    let final : Core = record p { mem = half_stored p.mem address value endianess } in
    let write = λ (q : Core). memory_write_half q.mem address value endianess in
    let stored = memory_write_half-in p.mem address small v.bytes inside value endianess in
    rw some_ins (
      after (arm_read_register (dest_field ins)) _ (named p (ins >>> 12))
      ∙ after (arm_read_register (source_field ins)) _ (named p (ins >>> 16))
      ∙ after (arm_write_half address value) (λ code. pure (if code == 0 then 0 else minus_one))
          (after (asks write) (λ r. put_mem r.1 >> pure r.0) (asks-eq write stored)
            ∙ after {p = p} {p' = final} (put_mem final.mem) (λ _. pure 0) refl))
