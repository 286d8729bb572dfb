-- ===== src/Examples/Steps.antt =====
-- The theorems on whole steps and on single transfers at concrete states.
use projet_prog.Base.{ℕ, ◌*◌, inl, ◌/◌, ◌%◌, ◌^◌, ◌≡◌, refl, arith, u16, some, ◌==◌, if◌then◌else◌}
use projet_prog.Base.Fault.{After, MayFault}
use projet_prog.Core.{Core, endianess}
use projet_prog.Core.Regimes.{OnlyRegisters}
use projet_prog.Core.Values.{visible, with_register}
use projet_prog.Conditions.Meaning.{al}
use projet_prog.Exception.Outcome.{word_at}
use projet_prog.Memory.{Memory}
use projet_prog.Memory.Half.{half_stored}
use projet_prog.Memory.Reads.{IsCode}
use projet_prog.DataProcessing.Meaning.{mov_op, value_of, carry_in}
use projet_prog.DataProcessing.Shifted.{rotated}
use projet_prog.LoadStore.{arm_load_store}
use projet_prog.LoadStore.Choice.{dropping, arm_load_store-transfer}
use projet_prog.LoadStore.Effects.{str-OnlyRegisters, ldr-word_at, strh-half_stored}
use projet_prog.LoadStore.Single.{source_field, dest_field, ldr, ldrb, strh}
use projet_prog.LoadStore.Store.{str}
use projet_prog.Instruction.{arm_step}
use projet_prog.Instruction.Total.{fetched}
use projet_prog.Instruction.Runs.{CanFetch, next, arm_step-value}
use projet_prog.Examples.{x86, cpu, cpu-IsValid}

-- MOV r1, #5 rotated right by 24 places, with zeros behind it.
abbrev mov_ram : Memory
mov_ram = record {
  value = λ i.
      if i == 0
      then 0xE3
      else if i == 1
      then 0xA0
      else if i == 2
      then 0x1C
      else if i == 3
      then 5
      else 0;
  taille = 16;
}

abbrev mov_cpu : Core
mov_cpu = record cpu { mem = mov_ram }

mov_cpu-CanFetch : CanFetch mov_cpu
mov_cpu-CanFetch = record {
  valid = record { words = cpu-IsValid.words; bytes = λ i p. ground arith };
  small = omega arith;
  inside = omega arith;
}

mov_word : next mov_cpu ≡ 0xE3A01C05
unfolding word_at
mov_word = refl

arm_step-value_example :
    arm_step mov_cpu
    ≡ some (
      0,
      with_register (fetched mov_cpu) (next mov_cpu / 2 ^ 12 % 16) (
          value_of mov_op
            (visible (fetched mov_cpu) (next mov_cpu / 2 ^ 16 % 16))
            (rotated (next mov_cpu % 2 ^ 8) (2 * (next mov_cpu / 2 ^ 8 % 16)))
            (carry_in mov_cpu)),
    )
arm_step-value_example =
    arm_step-value al mov_cpu mov_cpu-CanFetch (omega (arith, mov_word)) mov_op refl
      (omega (arith, mov_word)) (omega (arith, mov_word)) (omega (arith, mov_word))
      (inl (omega (arith, mov_word)))

-- The word that it writes to r1 is 0x500.
mov_operand : rotated (next mov_cpu % 2 ^ 8) (2 * (next mov_cpu / 2 ^ 8 % 16)) ≡ 0x500
unfolding word_at
mov_operand = refl

-- LDR r4, [r4]
ldr-word_at_example :
    ldr 0xE5144000 cpu
    ≡ some (
      0,
      with_register cpu (dest_field 0xE5144000) (word_at cpu (cpu.reg (source_field 0xE5144000))),
    )
ldr-word_at_example =
    ldr-word_at 0xE5144000 cpu (omega arith) cpu-IsValid (omega arith) (omega arith)

strh-half_stored_example :
    strh 0xE5440000 cpu
    ≡ some (
      0,
      record cpu {
        mem =
            half_stored cpu.mem
              (cpu.reg (dest_field 0xE5440000))
              (u16 (cpu.reg (source_field 0xE5440000)))
              endianess;
      },
    )
strh-half_stored_example =
    strh-half_stored 0xE5440000 cpu (omega arith) cpu-IsValid (omega arith) (omega arith)

-- STR with a written-back base
str-OnlyRegisters_example :
    After MayFault (λ (r : ℕ × Core). IsCode r.0 × OnlyRegisters cpu r.1) (str 0xE5A40004 cpu)
str-OnlyRegisters_example = str-OnlyRegisters 0xE5A40004 cpu cpu-IsValid

arm_load_store-transfer_example :
    arm_load_store 0xE5544000 cpu
    ≡ dropping
        (if 0xE5544000 / 2 ^ 20 % 2 == 0
          then (if 0xE5544000 / 2 ^ 22 % 2 == 0 then str 0xE5544000 else strh 0xE5544000)
          else if 0xE5544000 / 2 ^ 22 % 2 == 0
          then ldr 0xE5544000
          else ldrb 0xE5544000)
        cpu
arm_load_store-transfer_example = arm_load_store-transfer 0xE5544000 cpu (omega arith)
