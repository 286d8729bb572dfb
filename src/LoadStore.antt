-- ===== src/LoadStore.antt =====
-- arm_load_store.c: dispatch of the single and multiple transfers. The transfers of one register
-- are in Single, `str` in Store, the block transfers in Block. The processor pointer is not NULL.
pub mod Single
pub mod Store
pub mod Block
pub mod Choice
pub mod Effects
pub mod Blocks
pub mod Places
pub mod Multiple
pub mod Keeps
pub mod Stores
use projet_prog.Base.{ℕ, ◌>>>◌, bit_and, minus_one, ◌==◌, if◌then◌else◌, Machine}
use projet_prog.Core.{M, pure, ◌>>=◌, ◌>>◌}
use projet_prog.Conditions.{undefined_instruction}
use Single.{ldr, ldrb_ldrh, strb_strh}
use Store.{str}
use Block.{stm, ldm}

module _ ⦃m : Machine⦄ where
  -- The codes of the callees are dropped.
  unfoldable pub store : ℕ → M ℕ
  store ins = if ins == 0 then pure minus_one else do
    let x = bit_and (ins >>> 22) 1
    if x == 0 then str ins else if x == 1 then strb_strh ins else pure 0
    pure 0

  unfoldable pub load : ℕ → M ℕ
  load ins = if ins == 0 then pure minus_one else do
    let x = bit_and (ins >>> 22) 1
    if x == 0 then ldr ins else if x == 1 then ldrb_ldrh ins else pure 0
    pure 0

  unfoldable pub arm_load_store : ℕ → M ℕ
  arm_load_store ins = if ins == 0 then pure minus_one else do
    let ls = bit_and (ins >>> 20) 1
    if ls == 0 then store ins else if ls == 1 then load ins else pure 0
    pure 0

  unfoldable pub arm_load_store_multiple : ℕ → M ℕ
  arm_load_store_multiple ins = if ins == 0 then pure minus_one else do
    let ls = bit_and (ins >>> 20) 1
    if ls == 0 then stm ins else if ls == 1 then ldm ins else pure 0
    pure 0

unfoldable pub arm_coprocessor_load_store : ℕ → M ℕ
arm_coprocessor_load_store ins = pure undefined_instruction
