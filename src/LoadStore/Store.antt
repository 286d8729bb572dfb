-- ===== src/LoadStore/Store.antt =====
-- arm_load_store.c: str, with its three addressing modes. The function computes an address, which
-- it does not use, and then reads a word at the value of Rd.
use projet_prog.Base.{
  ℕ, ◌>>>◌, bit_and, add32, sub32, minus_one, shl, shr, ◌==◌, if◌then◌else◌, Machine,
}
use projet_prog.Core.{M, pure, ◌>>=◌, ◌>>◌, arm_read_register, arm_write_register, arm_read_word}
use projet_prog.Util.{asr, ror}
use projet_prog.LoadStore.Single.{source_field, dest_field}

-- The locals `address` and `v_source`.
pub record Locals : Type 0 where
  pub address : ℕ
  pub v_source : ℕ

-- v_source + offset if the bit U is set, else v_source - offset
abbrev pub displaced : (bit_u v_source offset : ℕ) → ℕ
displaced bit_u v_source offset =
    if bit_u == 1 then add32 v_source offset else sub32 v_source offset

-- post-indexed, immediate
unfoldable pub post_indexed : (bit_w bit_u offset : ℕ) → Locals → Locals
post_indexed bit_w bit_u offset l =
    if bit_w == 0
    then record { address = l.v_source; v_source = displaced bit_u l.v_source offset }
    else l

-- bit 25 clear: immediate addressing, which may write the base register back
unfoldable pub immediate_addressing : (bit_p bit_w bit_u source offset : ℕ) → Locals → M Locals
immediate_addressing bit_p bit_w bit_u source offset l =
    if bit_p == 0
    then pure (post_indexed bit_w bit_u offset l)
    else if bit_w == 0
    then pure (record l { address = displaced bit_u l.v_source offset })
    else (do
      let address = displaced bit_u l.v_source offset
      arm_write_register source address
      pure (record { address = address; v_source = address }))

-- bit 25 set, and a plain register offset
unfoldable pub register_addressing : (bit_p bit_w bit_u offset : ℕ) → Locals → Locals
register_addressing bit_p bit_w bit_u offset l =
    let moved = displaced bit_u l.v_source offset in
    if bit_p == 0
    then (if bit_w == 0 then record l { address = moved } else l)
    else if bit_w == 0
    then record l { address = moved }
    else record { address = moved; v_source = moved }

module _ ⦃m : Machine⦄ where
  -- The switch that computes `index`; `rrx` is what the case of ROR by 0 shifts.
  unfoldable pub shifted_index : (shift shift_imm offset rrx : ℕ) → ℕ
  shifted_index shift shift_imm offset rrx =
      if shift == 0
      then shl offset shift_imm
      else if shift == 1
      then (if shift_imm == 0 then 0 else shr offset shift_imm)
      else if shift == 2
      then (if shift_imm == 0
          then (if bit_and (offset >>> 31) 1 == 1 then 0xFFFFFFFF else 0)
          else asr offset shift_imm)
      else if shift == 3
      then (if shift_imm == 0 then rrx >>> 1 else ror offset shift_imm)
      else m.junk

  -- bit 25 set, and a shifted register offset
  unfoldable pub scaled_addressing :
      (bit_p bit_w bit_u shift shift_imm offset rm : ℕ) → Locals → Locals
  scaled_addressing bit_p bit_w bit_u shift shift_imm offset rm l =
      if bit_p == 0
      then (if bit_w == 0
          then record {
            address = l.v_source;
            v_source = displaced bit_u l.v_source (shifted_index shift shift_imm offset offset);
          }
          else l)
      else if bit_w == 0
      then record l {
        address = displaced bit_u l.v_source (shifted_index shift shift_imm offset offset);
      }
      else record l {
        address = displaced bit_u l.v_source (shifted_index shift shift_imm offset rm);
      }

  -- The choice of the addressing mode, with the locals that it leaves.
  unfoldable pub addressing : (ins source v_source : ℕ) → M Locals
  addressing ins source v_source =
      let bit_p = bit_and (ins >>> 24) 1 in
      let bit_w = bit_and (ins >>> 21) 1 in
      let bit_u = bit_and (ins >>> 23) 1 in
      let scaled = bit_and (ins >>> 4) 8 in
      let start : Locals = record { address = m.junk; v_source = v_source } in
      if bit_and (ins >>> 25) 1 == 0
      then immediate_addressing bit_p bit_w bit_u source (bit_and ins 0xC) start
      else (do
        let rm = bit_and ins 4
        offset ← arm_read_register rm
        if scaled == 0
            then pure (register_addressing bit_p bit_w bit_u offset start)
            else pure (
                scaled_addressing bit_p bit_w bit_u (bit_and (ins >>> 5) 2) (bit_and (ins >>> 7) 5)
                  offset rm start))

  unfoldable pub str : ℕ → M ℕ
  str ins = if ins == 0 then pure minus_one else do
    let source = source_field ins
    v_dest ← arm_read_register (dest_field ins)
    v_source ← arm_read_register source
    l ← addressing ins source v_source
    (code, _) ← arm_read_word v_dest l.v_source
    pure (if code == 0 then 0 else minus_one)
