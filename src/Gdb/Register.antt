-- ===== src/Gdb/Register.antt =====
-- gdb_protocol.c: the requests that read and write the registers.
use projet_prog.Base.{ℕ, zero, suc, ◌+◌, u8, none, some, ltb, if◌then◌else◌, Machine}
use projet_prog.Base.State.{pure, ◌>>=◌, ◌>>◌, asks, modify}
use projet_prog.Registers.{
  Registers, registers_read, registers_write, registers_get_mode, registers_read_cpsr,
  registers_write_cpsr,
}
use projet_prog.Text.{Bytes, codes, drop, scan_hex, atoi}
use projet_prog.Gdb.State.{Session, buffer, put_text}
use projet_prog.Gdb.Send.{gdb_send_buffer, gdb_send_data}
use projet_prog.Gdb.Scan.{assigned, behind, readable, read_uint32, write_uint32}

abbrev pub put_registers : Registers → Session (Unit {0})
put_registers reg = modify λ gdb. record gdb { arm = record gdb.arm { reg = reg } }

-- The assertion fails as `none`.
unfoldable pub read_register : (position reg : ℕ) → Session (Unit {0})
read_register position reg = do
  value ← asks λ gdb.
      if ltb reg 16 then registers_read gdb.arm.reg reg (registers_get_mode gdb.arm.reg) else none
  write_uint32 position value

-- for (i ...; n rounds) read_register, position += 8
unfoldable pub read_loop : (n i position : ℕ) → Session (Unit {0})
read_loop zero i position = pure tt
read_loop (suc n) i position = do read_register position i; read_loop n (i + 1) (position + 8)

-- n rounds of snprintf(position, 9, "xxxxxxxx"), position += 8
unfoldable pub unknown_loop : (n position : ℕ) → Session (Unit {0})
unknown_loop zero position = pure tt
unknown_loop (suc n) position = do
  put_text position (codes "xxxxxxxx")
  unknown_loop n (position + 8)

-- Sixteen registers, eight floating point registers in three parts each, fps and cpsr.
unfoldable pub read_general_registers : Bytes → Session (Unit {0})
read_general_registers text = do
  read_loop 16 0 buffer
  unknown_loop 24 (buffer + 128)
  put_text (buffer + 320) (codes "xxxxxxxx")
  cpsr ← asks λ gdb. some (registers_read_cpsr gdb.arm.reg)
  write_uint32 (buffer + 328) cpsr
  gdb_send_buffer

-- The register number is passed on as a uint8_t.
unfoldable pub read_single_register : Bytes → Session (Unit {0})
read_single_register text = read_register buffer (u8 (atoi text)) >> gdb_send_buffer

module _ ⦃m : Machine⦄ where
  -- The assertion fails as `none`; the warning only prints.
  unfoldable pub write_register : (reg : ℕ) → Bytes → Session (Unit {0})
  write_register reg text = do
    r ← asks λ gdb.
        if ltb reg 16
        then registers_write gdb.arm.reg reg (registers_get_mode gdb.arm.reg) (read_uint32 text)
        else none
    put_registers r

  -- for (i ...; n rounds) write_register, position += 8
  unfoldable pub write_loop : (n i : ℕ) → Bytes → Session (Unit {0})
  write_loop zero i text = pure tt
  write_loop (suc n) i text = do
    position ← asks λ gdb. readable text
    write_register i position
    write_loop n (i + 1) (drop 8 text)

  unfoldable pub write_general_registers : Bytes → Session (Unit {0})
  write_general_registers text = do
    write_loop 16 0 text
    position ← asks λ gdb. readable (drop 328 text)
    modify λ gdb. record gdb {
      arm = record gdb.arm { reg = registers_write_cpsr gdb.arm.reg (read_uint32 position) };
    }
    gdb_send_data (codes "OK")

  unfoldable pub write_single_register : Bytes → Session (Unit {0})
  write_single_register text = do
    value ← asks λ gdb. behind b'=' text
    write_register (assigned (scan_hex text)) value
    gdb_send_data (codes "OK")
