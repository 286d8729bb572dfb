-- ===== src/Gdb/Reason.antt =====
-- gdb_protocol.c: the reason that the debugger is told when the target stops.
use projet_prog.Base.{ℕ, ◌≡◌, refl, arith, some, Bool, true, false, ◌==◌, if◌then◌else◌}
use projet_prog.Conditions.{undefined_instruction}
use projet_prog.Exception.{end_simulation}
use projet_prog.Text.{Bytes, codes, size}
use projet_prog.Gdb.State.{Gdb}
use projet_prog.Gdb.Buffer.{IsText, is_text, is_text-IsText}
use projet_prog.Gdb.Packet.{replied, gdb_send_data-frame}
use projet_prog.Gdb.Send.{data_abort, prefetch_abort, gdb_send_stop_reason, stop_action}

if_either : (P : Bytes → Type 0) (b : Bool) {s t : Bytes} → P s → P t → P (if b then s else t)
if_either P true h k = h
if_either P false h k = k

-- Every reason is a text of three bytes.
abbrev Short : Bytes → Type 0
Short s = IsText s × (size s ≡ 3)

stop_action-Short : (exception : ℕ) → Short (stop_action exception)
unfolding stop_action is_text
stop_action-Short exception =
    let literal : (s : Bytes) → is_text s ≡ true → size s ≡ 3 → Short s =
      λ s e f. (is_text-IsText s e, f) in
    if_either Short (exception == undefined_instruction) (literal (codes "S04") refl refl) (
      if_either Short (exception == prefetch_abort) (literal (codes "S0A") refl refl) (
        if_either Short (exception == data_abort) (literal (codes "S0B") refl refl) (
          if_either Short (exception == end_simulation) (literal (codes "X05") refl refl)
            (literal (codes "S05") refl refl))))

-- The state after the reason is sent.
abbrev pub told : Gdb → Gdb
told gdb = replied (stop_action gdb.target_exception) gdb

pub told-eq : (gdb : Gdb) → gdb_send_stop_reason gdb ≡ some (tt, told gdb)
unfolding gdb_send_stop_reason
told-eq gdb =
    let (text, short) = stop_action-Short gdb.target_exception in
    gdb_send_data-frame (stop_action gdb.target_exception) text (omega (arith, short)) gdb
