-- ===== src/Server.antt =====
-- arm_simulator.c: the thread of the debugger and the thread of the interrupts share the processor.
-- Each request of the debugger and each interrupt runs with the lock held, so the processor sees
-- them one after the other; their order is that of the steps.
pub mod Invariant
pub mod Led
pub mod Scans
use projet_prog.Base.{ℕ, ◌≡◌, some, Bool, true, Machine}
use projet_prog.Base.State.{pure, ◌>>=◌}
use projet_prog.Exception.{arm_exception}
use projet_prog.Text.{Bytes}
use projet_prog.Gdb.{Gdb, Session, gdb_packet_analysis}
use projet_prog.Gdb.State.{on_arm}
use projet_prog.Gdb.Send.{gdb_transmit_packet, gdb_require_retransmission}

module _ ⦃m : Machine⦄ where
  -- A byte that irq_listener reads; the result of the exception is dropped.
  unfoldable pub interrupt : ℕ → Session (Unit {0})
  interrupt irq = do result ← on_arm (arm_exception irq); pure tt

  -- What one of the threads does with a packet that gdb_scanner has found, with a request to send
  -- the last packet again, with bytes that are no packet, or with the byte of an interrupt.
  pub data Step : Gdb → Gdb → Type 0 where
    packet :
        {gdb gdb' : Gdb} (fuel : ℕ) (text : Bytes)
        → gdb_packet_analysis fuel text gdb ≡ some (true, gdb')
        → Step gdb gdb'
    resend : {gdb gdb' : Gdb} → gdb_transmit_packet gdb ≡ some (tt, gdb') → Step gdb gdb'
    refuse : {gdb gdb' : Gdb} → gdb_require_retransmission gdb ≡ some (tt, gdb') → Step gdb gdb'
    irq : {gdb gdb' : Gdb} (byte : ℕ) → interrupt byte gdb ≡ some (tt, gdb') → Step gdb gdb'

  -- Any sequence of those.
  pub data Reaches : Gdb → Gdb → Type 0 where
    here : {gdb : Gdb} → Reaches gdb gdb
    then_step : {gdb gdb' gdb'' : Gdb} → Reaches gdb gdb' → Step gdb' gdb'' → Reaches gdb gdb''

  pub Reaches-trans : {a b c : Gdb} → Reaches a b → Reaches b c → Reaches a c
  Reaches-trans r here = r
  Reaches-trans r (then_step q s) = then_step (Reaches-trans r q) s
