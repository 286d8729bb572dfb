-- ===== src/Gdb/Dispatch.antt =====
-- gdb_protocol.c: every packet keeps a session well formed.
use projet_prog.Base.{
  ℕ, ◌==◌, Option, none, some, Bool, true, false, if◌then◌else◌, [], ◌∷◌, Machine,
}
use projet_prog.Base.State.{pure, ◌>>◌}
use projet_prog.Base.Yields.{Yields-bind, Yields-then, Yields-pure}
use projet_prog.Text.{Bytes}
use projet_prog.Gdb.{handle, respond, gdb_init, gdb_packet_analysis}
use projet_prog.Gdb.State.{Session}
use projet_prog.Gdb.Send.{gdb_send_data, gdb_send_ack, gdb_require_retransmission}
use projet_prog.Gdb.Execute.{cont_with_signal}
use projet_prog.Gdb.Kept.{
  Keeps, any-Keeps, gdb_send_data-Keeps, gdb_send_ack-Keeps, gdb_require_retransmission-Keeps,
}
use projet_prog.Gdb.Keeps.{
  kill_request-Keeps, reason-Keeps, read_general_registers-Keeps, read_single_register-Keeps,
  step-Keeps, step_with_signal-Keeps, cont-Keeps, write_general_registers-Keeps,
  write_single_register-Keeps,
}
use projet_prog.Gdb.Serves.{
  query-Keeps, set_thread-Keeps, set_breakpoint-Keeps, remove_breakpoint-Keeps, read_memory-Keeps,
  write_memory_binary-Keeps,
}

-- The handler, if there is one, keeps a session well formed.
data Serves (n : ℕ) : Option (Bytes → Session Bool) → Type 0 where
  none_there : Serves n none
  serves : {h : Bytes → Session Bool} → ((text : Bytes) → Keeps n (h text)) → Serves n (some h)

choose :
    (n : ℕ) (b : Bool) {x y : Option (Bytes → Session Bool)}
    → Serves n x
    → Serves n y
    → Serves n (if b then x else y)
choose n true h k = h
choose n false h k = k

module _ ⦃m : Machine⦄ (n fuel : ℕ) where
  ends :
      {h : Bytes → Session (Unit {0})}
      → ((text : Bytes) → Keeps n (h text))
      → Serves n (some (λ s. h s >> pure true))
  ends keeps = serves λ text. Yields-then (keeps text) (Yields-pure true tt)

  gdb_init-Serves : (c : ℕ) → Serves n (gdb_init fuel c)
  unfolding gdb_init cont_with_signal
  gdb_init-Serves c = choose n (c == b'c') (serves (cont-Keeps n fuel)) (
      choose n (c == b'C') (serves (cont-Keeps n fuel)) (
        choose n (c == b'k') (ends (kill_request-Keeps n)) (
          choose n (c == b'q') (ends (query-Keeps n)) (
            choose n (c == b'g') (ends (read_general_registers-Keeps n)) (
              choose n (c == b'm') (ends (read_memory-Keeps n)) (
                choose n (c == b'p') (ends (read_single_register-Keeps n)) (
                  choose n (c == b'?') (ends (reason-Keeps n)) (
                    choose n (c == b'H') (ends (set_thread-Keeps n)) (
                      choose n (c == b's') (ends (step-Keeps n)) (
                        choose n (c == b'S') (ends (step_with_signal-Keeps n)) (
                          choose n (c == b'G') (ends (write_general_registers-Keeps n)) (
                            choose n (c == b'X') (ends (write_memory_binary-Keeps n)) (
                              choose n (c == b'P') (ends (write_single_register-Keeps n)) (
                                choose n (c == b'z') (ends (remove_breakpoint-Keeps n)) (
                                  choose n (c == b'Z') (ends (set_breakpoint-Keeps n))
                                    none_there)))))))))))))))

  handle-Keeps : (text : Bytes) → Keeps n (handle fuel text)
  unfolding handle
  handle-Keeps [] = any-Keeps n _
  handle-Keeps (index ∷ text) = called (gdb_init fuel index) (gdb_init-Serves index)
    where
      called :
          (o : Option (Bytes → Session Bool))
          → Serves n o
          → Keeps n (elim o as (λ _. Session Bool) [
            | none ↦ gdb_send_data [] >> pure true
            | some handler ↦ handler text
          ])
      called none h = Yields-then (gdb_send_data-Keeps n []) (Yields-pure true tt)
      called (some handler) (serves keeps) = keeps text

  respond-Keeps : (check given : ℕ) (text : Bytes) → Keeps n (respond fuel check given text)
  unfolding respond
  respond-Keeps check given text = answered (check == given)
    where
      answered :
          (right : Bool)
          → Keeps n (elim right as (λ _. Session Bool) [
            | true ↦ gdb_send_ack >> handle fuel text
            | false ↦ gdb_require_retransmission >> pure true
          ])
      answered true = Yields-then (gdb_send_ack-Keeps n) (handle-Keeps text)
      answered false = Yields-then (gdb_require_retransmission-Keeps n) (Yields-pure true tt)

  pub gdb_packet_analysis-Keeps : (packet : Bytes) → Keeps n (gdb_packet_analysis fuel packet)
  unfolding gdb_packet_analysis
  gdb_packet_analysis-Keeps packet = Yields-bind (any-Keeps n _) λ check _. respond-Keeps check _ _
