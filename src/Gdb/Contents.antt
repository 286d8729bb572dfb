-- ===== src/Gdb/Contents.antt =====
-- gdb_protocol.c: the requests that read and write the memory.
use projet_prog.Base.{
  ℕ, zero, suc, ◌+◌, bit_xor, add32, minus_one, Option, none, some, [], ◌∷◌, Bool, true, false, ltb,
  ◌==◌, if◌then◌else◌, Machine, u8,
}
use projet_prog.Base.State.{pure, ◌>>=◌, ◌>>◌, asks, modify}
use projet_prog.Memory.{Memory, memory_get_size, memory_read_byte, memory_write_byte}
use projet_prog.Text.{Bytes, codes, hex2}
use projet_prog.Gdb.State.{Session, buffer, put_text, set_byte}
use projet_prog.Gdb.Send.{gdb_send_buffer, gdb_send_data}
use projet_prog.Gdb.Scan.{behind, scan_pair}

abbrev pub put_memory : Memory → Session (Unit {0})
put_memory mem = modify λ gdb. record gdb { arm = record gdb.arm { mem = mem } }

-- One byte of the content, which 0x7d escapes.
unfoldable pub escaped : Bytes → Option (ℕ × Bytes)
escaped [] = none
escaped (c ∷ s) = some (bit_xor c 0x20, s)

unfoldable pub content_byte : Bytes → Option (ℕ × Bytes)
content_byte [] = none
content_byte (c ∷ s) = if c == 0x7d then escaped s else some (c, s)

module _ ⦃m : Machine⦄ where
  -- while (size-- && memory_read_byte(...) != -1)
  unfoldable pub dump_loop : (size address position : ℕ) → Session (Unit {0})
  dump_loop zero address position = pure tt
  dump_loop (suc size) address position = do
    (code, value) ← asks λ gdb. memory_read_byte gdb.arm.mem address (u8 m.junk)
    elim (code == minus_one) [
      | true ↦ pure tt
      | false ↦ put_text position (hex2 value) >> dump_loop size (add32 address 1) (position + 2)
    ]

  -- The request for an address and a size.
  unfoldable pub dump_at : ℕ × ℕ → Session (Unit {0})
  dump_at (address, size) = do
    inside ← asks λ gdb. some (ltb address (memory_get_size gdb.arm.mem))
    elim inside [
      | true ↦ set_byte buffer 0 >> dump_loop size address buffer
      | false ↦ put_text buffer (codes "E0E")
    ]
    gdb_send_buffer

  unfoldable pub read_memory : Bytes → Session (Unit {0})
  read_memory text = dump_at (scan_pair text)

  -- for (i ...; (i < size) && write_ok; i++), n rounds left
  unfoldable pub fill_loop : (n address : ℕ) → Bytes → Bool → Session Bool
  fill_loop zero address content write_ok = pure write_ok
  fill_loop (suc n) address content write_ok = elim write_ok [
    | false ↦ pure false
    | true ↦ do
      (value, content) ← asks λ gdb. content_byte content
      (code, mem) ← asks λ gdb. memory_write_byte gdb.arm.mem address value
      put_memory mem
      fill_loop n (add32 address 1) content (code == 0)
  ]

  unfoldable pub fill_at : ℕ × ℕ → Bytes → Session (Unit {0})
  fill_at (address, size) text = do
    content ← asks λ gdb. behind b':' text
    inside ← asks λ gdb. some (ltb address (memory_get_size gdb.arm.mem))
    write_ok ← fill_loop size address content inside
    elim write_ok [ true ↦ gdb_send_data (codes "OK") | false ↦ gdb_send_data (codes "E02") ]

  unfoldable pub write_memory_binary : Bytes → Session (Unit {0})
  write_memory_binary text = fill_at (scan_pair text) text
