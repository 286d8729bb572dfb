-- ===== src/Instruction.antt =====
-- arm_instruction.c: fetch, test of the condition, dispatch on the instruction class, and the
-- exceptions that a step raises.
pub mod Keeps
pub mod Total
pub mod Runs
use projet_prog.Base.{ℕ, ◌>>>◌, bit_and, u8, ◌==◌, if◌then◌else◌, Machine}
use projet_prog.Core.{M, pure, ◌>>=◌, arm_fetch}
use projet_prog.Conditions.{undefined_instruction, arm_check_cond}
use projet_prog.DataProcessing.{arm_data_processing_shift, arm_data_processing_immediate_msr}
use projet_prog.LoadStore.{arm_load_store, arm_load_store_multiple, arm_coprocessor_load_store}
use projet_prog.Branch.{arm_branch}
use projet_prog.Exception.{arm_exception}

module _ ⦃m : Machine⦄ where
  -- The switch on bits 27 to 25.
  unfoldable pub instruction_switch : (type instruction : ℕ) → M ℕ
  instruction_switch type instruction =
      if type == 0x0
      then arm_data_processing_shift instruction
      else if type == 0x1
      then arm_data_processing_immediate_msr instruction
      else if type == 0x2
      then arm_load_store instruction
      else if type == 0x4
      then arm_load_store_multiple instruction
      else if type == 0x6
      then arm_coprocessor_load_store instruction
      else if type == 0x5
      then arm_branch instruction
      else pure undefined_instruction

  unfoldable pub arm_execute_instruction : M ℕ
  arm_execute_instruction = do
    (result, instruction) ← arm_fetch m.junk
    if result == 0
        then (do
          let type = bit_and (instruction >>> 25) 7
          passed ← arm_check_cond instruction
          if passed == 0 then pure result else instruction_switch type instruction)
        else pure result

  -- The result is passed on as a uint8_t.
  unfoldable pub arm_step : M ℕ
  arm_step = do
    result ← arm_execute_instruction
    if result == 0 then pure result else arm_exception (u8 result)
