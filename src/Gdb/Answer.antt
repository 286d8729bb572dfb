-- ===== src/Gdb/Answer.antt =====
-- gdb_protocol.c: what the requests g and G do to the registers.
use projet_prog.Base.{◌+◌, ◌≡◌, ◌∙◌, refl, arith, some, [], ◌∷◌, ◌++◌}
use projet_prog.Base.State.{asks, after, after_step, asks-eq}
use projet_prog.Registers.{registers_read_cpsr}
use projet_prog.Text.{Bytes, codes, hex8, digits}
use projet_prog.Gdb.State.{Gdb, buffer, store_text, put_text, put_text-eq, written}
use projet_prog.Gdb.Buffer.{Holds, Holds-prefix, nothing, store_text-append}
use projet_prog.Gdb.Packet.{frame, gdb_send_buffer-frame}
use projet_prog.Gdb.Scan.{write_uint32}
use projet_prog.Gdb.Register.{read_loop, unknown_loop, read_general_registers}
use projet_prog.Gdb.Dump.{
  registers_dump, registers_text, unknown_text, registers_dump-IsText, read_loop-Fills,
  unknown_loop-Fills, put_behind, with_packet,
}

-- g sends the registers and the masked cpsr in a packet, and changes the connection alone.
pub read_general_registers-dump :
    (text : Bytes) (gdb : Gdb)
    → (gdb' : Gdb) × (read_general_registers text gdb ≡ some (tt, gdb'))
      × (gdb'.events ≡ written (frame (registers_dump gdb.arm.reg)) ∷ gdb.events)
      × (gdb'.arm ≡ gdb.arm)
unfolding read_general_registers registers_dump registers_text unknown_text digits write_uint32
read_general_registers-dump text gdb =
    let (c1, read, h1) =
      read_loop-Fills gdb 16 0 [] gdb.packet (omega arith) (omega arith) nothing in
    let (c2, marked, h2) =
      unknown_loop-Fills gdb 24 (registers_text gdb.arm.reg 16 0) c1 (omega arith) h1 in
    let known = registers_text gdb.arm.reg 16 0 ++ unknown_text 24 in
    let all = registers_dump gdb.arm.reg in
    let cpsr = registers_read_cpsr gdb.arm.reg in
    let c3 = store_text c2 (buffer + 320) (codes "xxxxxxxx") in
    let h3 : Holds c3 1 (known ++ codes "xxxxxxxx") =
      Holds-prefix (known ++ codes "xxxxxxxx") (0 ∷ [])
        (put_behind gdb c2 known (codes "xxxxxxxx") h2) in
    let c4 = store_text c3 (buffer + 328) (hex8 cpsr) in
    let h4 : Holds c4 1 (all ++ (0 ∷ [])) =
      store_text-append (known ++ codes "xxxxxxxx") (hex8 cpsr) h3 in
    (
      _,
      after_step (read_loop 16 0 buffer) _ read
          ∙ after_step (unknown_loop 24 (buffer + 128)) _ marked
          ∙ after_step (put_text (buffer + 320) (codes "xxxxxxxx")) _
              (put_text-eq (buffer + 320) (codes "xxxxxxxx") (with_packet gdb c2) (omega arith))
          ∙ after (asks λ gdb. some (registers_read_cpsr gdb.arm.reg)) _ (asks-eq _ refl)
          ∙ after_step (put_text (buffer + 328) (hex8 cpsr)) _
              (put_text-eq (buffer + 328) (hex8 cpsr) (with_packet gdb c3) (omega arith))
          ∙ gdb_send_buffer-frame all (registers_dump-IsText gdb.arm.reg) (omega arith)
              (with_packet gdb c4) h4,
      refl,
      refl,
    )
