-- ===== src/Gdb.antt =====
-- gdb_protocol.c: the packets of the debugger and their handlers.
pub mod State
pub mod Send
pub mod Scan
pub mod Execute
pub mod Register
pub mod Contents
pub mod Requests
pub mod Buffer
pub mod Packet
pub mod Received
pub mod Reason
pub mod Stops
pub mod Points
pub mod Pairs
pub mod Fill
pub mod Show
pub mod Kept
pub mod Range
pub mod Keeps
pub mod Serves
pub mod Dispatch
pub mod Dump
pub mod Answer
pub mod Restore
pub use State.{Gdb, Session, max_packet_size}
use projet_prog.Base.{
  ℕ, zero, suc, ◌+◌, ◌-◌, u8, Option, none, some, [], ◌∷◌, ◌++◌, Bool, true, false, ◌==◌,
  if◌then◌else◌, Machine,
}
use projet_prog.Base.State.{pure, ◌>>=◌, ◌>>◌, asks}
use projet_prog.Core.{Core}
use projet_prog.Breakpoints.{Cells}
use projet_prog.Text.{Bytes, size, drop, scan_hex}
use Send.{gdb_send_ack, gdb_send_data, gdb_require_retransmission}
use Scan.{assigned}
use Execute.{cont, cont_with_signal, kill_request, reason, step, step_with_signal}
use Register.{
  read_general_registers, read_single_register, write_general_registers, write_single_register,
}
use Contents.{read_memory, write_memory_binary}
use Requests.{query, set_thread, set_breakpoint, remove_breakpoint}

-- The arrays hold what malloc returned; the allocation succeeds.
unfoldable pub gdb_init_data : (contents points : Cells) → Core → Gdb
gdb_init_data contents points arm = record {
  arm = arm;
  target_exception = 0;
  packet = contents;
  table = record { breakpoints = points; breakpoints_number = 0 };
  len = 0;
  events = [];
}

-- for (i ...; n rounds) check += packet[i]
unfoldable pub sum_loop : (n : ℕ) → Bytes → (check : ℕ) → Option ℕ
sum_loop zero s check = some check
sum_loop (suc n) [] check = none
sum_loop (suc n) (c ∷ s) check = sum_loop n s (u8 (check + c))

-- packet[i] = '\0'
unfoldable pub cut_at : ℕ → Bytes → Bytes
cut_at i [] = []
cut_at zero (c ∷ s) = 0 ∷ s
cut_at (suc i) (c ∷ s) = c ∷ cut_at i s

abbrev finished : Session (Unit {0}) → Session Bool
finished m = m >> pure true

module _ ⦃m : Machine⦄ (fuel : ℕ) where
  -- The handlers that gdb_init registers; none for the other bytes.
  unfoldable pub gdb_init : ℕ → Option (Bytes → Session Bool)
  gdb_init c =
      if c == b'c'
      then some (cont fuel)
      else if c == b'C'
      then some (cont_with_signal fuel)
      else if c == b'k'
      then some (λ s. finished (kill_request s))
      else if c == b'q'
      then some (λ s. finished (query s))
      else if c == b'g'
      then some (λ s. finished (read_general_registers s))
      else if c == b'm'
      then some (λ s. finished (read_memory s))
      else if c == b'p'
      then some (λ s. finished (read_single_register s))
      else if c == b'?'
      then some (λ s. finished (reason s))
      else if c == b'H'
      then some (λ s. finished (set_thread s))
      else if c == b's'
      then some (λ s. finished (step s))
      else if c == b'S'
      then some (λ s. finished (step_with_signal s))
      else if c == b'G'
      then some (λ s. finished (write_general_registers s))
      else if c == b'X'
      then some (λ s. finished (write_memory_binary s))
      else if c == b'P'
      then some (λ s. finished (write_single_register s))
      else if c == b'z'
      then some (λ s. finished (remove_breakpoint s))
      else if c == b'Z'
      then some (λ s. finished (set_breakpoint s))
      else none

  -- The handler of the request's byte on what follows it, or the empty answer.
  unfoldable pub handle : Bytes → Session Bool
  handle [] = asks λ gdb. none
  handle (index ∷ text) = elim (gdb_init index) [
    | none ↦ finished (gdb_send_data [])
    | some handler ↦ handler text
  ]

  -- The comparison of the two sums, and the handler.
  unfoldable pub respond : (check given : ℕ) → Bytes → Session Bool
  respond check given text = elim (check == given) [
    | true ↦ gdb_send_ack >> handle text
    | false ↦ finished gdb_require_retransmission
  ]

  -- The packet is followed by the zero byte of the scanner. The result is false where the fuel of
  -- cont ended.
  unfoldable pub gdb_packet_analysis : Bytes → Session Bool
  gdb_packet_analysis packet = do
    let text = packet ++ (0 ∷ [])
    let i = 1 + (size packet - 4)
    check ← asks λ gdb. sum_loop (size packet - 4) (drop 1 text) 0
    respond check (assigned (scan_hex (drop (i + 1) text))) (drop 1 (cut_at i text))
