-- ===== src/Gdb/Send.antt =====
-- gdb_protocol.c: what is sent to the debugger.
use projet_prog.Base.{
  ℕ, zero, suc, ◌+◌, ◌-◌, Option, none, some, [], ◌∷◌, u8, true, false, ◌==◌, if◌then◌else◌,
}
use projet_prog.Base.State.{◌>>=◌, ◌>>◌, asks, modify}
use projet_prog.Breakpoints.{Cells}
use projet_prog.Conditions.{undefined_instruction}
use projet_prog.Exception.{end_simulation}
use projet_prog.Text.{Bytes, codes, hex2}
use projet_prog.Gdb.State.{Session, written, max_packet_size, buffer, set_byte, put_text}

abbrev pub data_abort : ℕ
data_abort = 2

abbrev pub prefetch_abort : ℕ
prefetch_abort = 6

-- Rio_writen
abbrev pub write_out : Bytes → Session (Unit {0})
write_out s = modify λ gdb. record gdb { events = written s ∷ gdb.events }

unfoldable pub gdb_send_ack : Session (Unit {0})
gdb_send_ack = write_out (codes "+")

unfoldable pub gdb_require_retransmission : Session (Unit {0})
gdb_require_retransmission = write_out (codes "-")

-- n bytes of the array
unfoldable pub bytes_from : Cells → (i n : ℕ) → Bytes
bytes_from c i zero = []
bytes_from c i (suc n) = c i ∷ bytes_from c (i + 1) n

unfoldable pub gdb_transmit_packet : Session (Unit {0})
gdb_transmit_packet gdb = write_out (bytes_from gdb.packet 0 gdb.len) gdb

-- while (packet[i] != '\0'): the sum and the position. The array has n bytes from i on.
unfoldable pub check_loop : (n : ℕ) → Cells → (i check : ℕ) → Option (ℕ × ℕ)
check_loop zero c i check = none
check_loop (suc n) c i check = elim (c i == 0) [
  | true ↦ some (check, i)
  | false ↦ check_loop n c (i + 1) (u8 (check + c i))
]

unfoldable pub gdb_send_buffer : Session (Unit {0})
gdb_send_buffer = do
  set_byte 0 b'$'
  (check, i) ← asks λ gdb. check_loop (max_packet_size - 1) gdb.packet 1 0
  set_byte i b'#'
  put_text (i + 1) (hex2 check)
  set_byte (i + 3) 0
  modify λ gdb. record gdb { len = i + 3 }
  gdb_transmit_packet

unfoldable pub gdb_send_data : Bytes → Session (Unit {0})
gdb_send_data text = put_text buffer text >> gdb_send_buffer

-- The switch on the exception of the target.
unfoldable pub stop_action : ℕ → Bytes
stop_action exception =
    if exception == undefined_instruction
    then codes "S04"
    else if exception == prefetch_abort
    then codes "S0A"
    else if exception == data_abort
    then codes "S0B"
    else if exception == end_simulation
    then codes "X05"
    else codes "S05"

unfoldable pub gdb_send_stop_reason : Session (Unit {0})
gdb_send_stop_reason gdb = gdb_send_data (stop_action gdb.target_exception) gdb
