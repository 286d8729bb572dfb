-- ===== src/Gdb/Execute.antt =====
-- gdb_protocol.c: the requests that run the processor, and those on its state as a whole.
use projet_prog.Base.{
  ℕ, zero, suc, ◌∷◌, minus_one, Bool, true, false, not, some, ◌==◌, if◌then◌else◌, Machine,
}
use projet_prog.Base.State.{pure, ◌>>=◌, ◌>>◌, asks, modify}
use projet_prog.Registers.{registers_read, registers_get_mode}
use projet_prog.Instruction.{arm_step}
use projet_prog.Breakpoints.{gdb_find_breakpoint}
use projet_prog.Text.{Bytes}
use projet_prog.Gdb.State.{Gdb, Session, shut_down, on_arm}
use projet_prog.Gdb.Send.{gdb_send_stop_reason}

-- Whether cont stops at this pc.
unfoldable pub stops_at : Gdb → ℕ → Bool
stops_at gdb pc =
    if not (gdb_find_breakpoint gdb.table pc == minus_one)
    then true
    else not (gdb.target_exception == 0)

module _ ⦃m : Machine⦄ where
  unfoldable pub single_step : Session (Unit {0})
  single_step = do
    exception ← on_arm arm_step
    modify λ gdb. record gdb { target_exception = exception }

  unfoldable pub single_step_with_signal : Session (Unit {0})
  single_step_with_signal = single_step

  -- do ... while (!stop), on fuel; the result is false where the fuel ends before the loop.
  unfoldable pub cont : (fuel : ℕ) → Bytes → Session Bool
  cont zero text = pure false
  cont (suc fuel) text = do
    single_step
    pc ← asks λ gdb. registers_read gdb.arm.reg 15 (registers_get_mode gdb.arm.reg)
    stop ← asks λ gdb. some (stops_at gdb pc)
    elim stop [ true ↦ gdb_send_stop_reason >> pure true | false ↦ cont fuel text ]

  unfoldable pub cont_with_signal : (fuel : ℕ) → Bytes → Session Bool
  cont_with_signal = cont

  unfoldable pub step : Bytes → Session (Unit {0})
  step text = single_step >> gdb_send_stop_reason

  unfoldable pub step_with_signal : Bytes → Session (Unit {0})
  step_with_signal text = single_step_with_signal >> gdb_send_stop_reason

unfoldable pub reason : Bytes → Session (Unit {0})
reason text = gdb_send_stop_reason

unfoldable pub kill_request : Bytes → Session (Unit {0})
kill_request text = modify λ gdb. record gdb { events = shut_down ∷ gdb.events }
