-- ===== src/Examples/Runs.antt =====
-- The theorems on instructions at concrete states and instruction words.
use projet_prog.Base.{ℕ, ◌≡◌, refl, arith, u8, some, [], ◌∷◌, ◌++◌, ◌==◌, if◌then◌else◌}
use projet_prog.Base.Fault.{After, MayFault}
use projet_prog.Core.{Core}
use projet_prog.Core.Valid.{IsValid}
use projet_prog.Core.Regimes.{OnlyRegisters, SameSize, Returns}
use projet_prog.Instruction.{arm_step}
use projet_prog.Instruction.Keeps.{IsStepCode, arm_step-SameSize}
use projet_prog.Instruction.Total.{class, fetched, arm_step-OnlyRegisters}
use projet_prog.Exception.{software_interrupt, end_simulation, arm_exception}
use projet_prog.Exception.Outcome.{word_at, swi_number, arm_exception-swi}
use projet_prog.Examples.{x86, ram-IsBytes, file, cpu, cpu-IsValid}

arm_step-SameSize_example :
    After MayFault (λ (r : ℕ × Core). IsStepCode r.0 × SameSize cpu r.1) (arm_step cpu)
arm_step-SameSize_example = arm_step-SameSize cpu cpu-IsValid

mov_class : class (word_at cpu (cpu.reg 15)) ≡ 1
unfolding word_at
mov_class = refl

arm_step-OnlyRegisters_example : Returns IsStepCode (OnlyRegisters (fetched cpu)) (arm_step cpu)
arm_step-OnlyRegisters_example =
    arm_step-OnlyRegisters cpu cpu-IsValid (omega arith) (omega arith) (omega (arith, mov_class))
      (omega (arith, mov_class))

-- The pc four bytes past the instruction, as an instruction reads it.
abbrev after_fetch : Core
after_fetch = record cpu { reg = λ i. if i == 15 then 8 else file i }

after_fetch-IsValid : IsValid after_fetch
after_fetch-IsValid = record { words = λ i p. ground arith; bytes = ram-IsBytes }

arm_exception-swi_example : arm_exception software_interrupt after_fetch ≡ (
    if swi_number after_fetch == 0x123456
    then some (end_simulation, after_fetch)
    else if swi_number after_fetch == 1
    then some
        (0, record after_fetch { stdout = after_fetch.stdout ++ (u8 (after_fetch.reg 0) ∷ []) })
    else some (software_interrupt, after_fetch))
arm_exception-swi_example =
    arm_exception-swi after_fetch after_fetch-IsValid (omega arith) (omega arith)
