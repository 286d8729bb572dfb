-- ===== src/LoadStore/Single.antt =====
-- arm_load_store.c: ldr, ldrb, ldrh, strb, strh, and the choices between the last two of each kind.
use projet_prog.Base.{ℕ, ◌>>>◌, bit_and, u8, u16, minus_one, ◌==◌, if◌then◌else◌, Machine}
use projet_prog.Core.{
  M, pure, ◌>>=◌, ◌>>◌, arm_read_register, arm_write_register, arm_read_byte, arm_read_half,
  arm_read_word, arm_write_byte, arm_write_half,
}

-- (ins >> 16) & 0x04 and (ins >> 12) & 0x04
abbrev pub source_field : ℕ → ℕ
source_field ins = bit_and (ins >>> 16) 4

abbrev pub dest_field : ℕ → ℕ
dest_field ins = bit_and (ins >>> 12) 4

unfoldable pub strb : ℕ → M ℕ
strb ins = if ins == 0 then pure minus_one else do
  v_dest ← arm_read_register (dest_field ins)
  v_source ← arm_read_register (source_field ins)
  code ← arm_write_byte v_dest (u8 v_source)
  pure (if code == 0 then 0 else minus_one)

unfoldable pub strh : ℕ → M ℕ
strh ins = if ins == 0 then pure minus_one else do
  v_dest ← arm_read_register (dest_field ins)
  v_source ← arm_read_register (source_field ins)
  code ← arm_write_half v_dest (u16 v_source)
  pure (if code == 0 then 0 else minus_one)

unfoldable pub strb_strh : ℕ → M ℕ
strb_strh ins = do
  let x = bit_and (ins >>> 26) 1
  if x == 0 then strb ins else if x == 1 then strh ins else pure 0
  pure 0

module _ ⦃m : Machine⦄ where
  unfoldable pub ldr : ℕ → M ℕ
  ldr ins = if ins == 0 then pure minus_one else do
    v_source ← arm_read_register (source_field ins)
    (code, value) ← arm_read_word v_source m.junk
    if code == 0 then arm_write_register (dest_field ins) value >> pure 0 else pure minus_one

  unfoldable pub ldrb : ℕ → M ℕ
  ldrb ins = if ins == 0 then pure minus_one else do
    v_source ← arm_read_register (source_field ins)
    (code, value) ← arm_read_byte v_source (u8 m.junk)
    if code == 0 then arm_write_register (dest_field ins) value >> pure 0 else pure minus_one

  unfoldable pub ldrh : ℕ → M ℕ
  ldrh ins = if ins == 0 then pure minus_one else do
    v_source ← arm_read_register (source_field ins)
    (code, value) ← arm_read_half v_source (u16 m.junk)
    if code == 0 then arm_write_register (dest_field ins) value >> pure 0 else pure minus_one

  unfoldable pub ldrb_ldrh : ℕ → M ℕ
  ldrb_ldrh ins = if ins == 0 then pure minus_one else do
    let x = bit_and (ins >>> 26) 1
    if x == 1 then ldrb ins else if x == 0 then ldrh ins else pure 0
    pure 0
