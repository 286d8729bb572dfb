-- ===== src/Server/Invariant.antt =====
-- arm_simulator.c: what no sequence of requests and interrupts breaks.
use projet_prog.Base.{ℕ, ◌≡◌, refl, arith, sub32, bit_and, ◌==◌, Machine}
use projet_prog.Base.Fault
use projet_prog.Base.Fault.{After, MayFault}
use projet_prog.Base.Yields.{
  Yields, Yields-bind, Yields-then, Yields-pure, Yields-if, Yields-modify,
}
use projet_prog.Core.{Core}
use projet_prog.Core.Valid.{IsValid, Regime}
use projet_prog.Core.Rules.{
  arm_read_register-Yields, arm_write_register-Yields, arm_write_cpsr-Yields,
}
use projet_prog.Core.Access.{arm_read_word-Yields}
use projet_prog.Exception.{
  arm_exception, reset_or_return, putchar, software_interrupt, reset, reset_cpsr,
}
use projet_prog.Breakpoints.{Cells}
use projet_prog.Gdb.{Gdb, gdb_init_data}
use projet_prog.Gdb.Kept.{
  WellFormed, Keeps, on_arm-Keeps, gdb_transmit_packet-Keeps, gdb_require_retransmission-Keeps,
}
use projet_prog.Gdb.Dispatch.{gdb_packet_analysis-Keeps}
use projet_prog.Server.{interrupt, Step, Reaches, packet, resend, refuse, irq, here, then_step}

-- A valid processor with a memory of n bytes.
record Sized (n : ℕ) (p : Core) : Type 0 where
  valid : IsValid p
  same_size : p.mem.taille ≡ n

Sized-Regime : (n : ℕ) → Regime (Sized n)
Sized-Regime n = record {
  valid = λ p i. i.valid;
  keeps = λ p r i words. record {
    valid = record { words = words; bytes = i.valid.bytes };
    same_size = i.same_size;
  };
}

abbrev Anything : ℕ → Type 0
Anything _ = Unit {0}

module _ ⦃m : Machine⦄ (n : ℕ) where
  reset_or_return-Yields :
      (exception : ℕ) → Yields MayFault (Sized n) Anything (reset_or_return exception)
  unfolding reset_or_return
  reset_or_return-Yields exception =
      let R = Sized-Regime n in
      Yields-if (exception == reset)
        (Yields-then (arm_write_cpsr-Yields R reset_cpsr) (
          Yields-then (arm_write_register-Yields R 15 0 (omega arith) (omega arith))
            (Yields-pure _ tt)))
        (Yields-pure _ tt)

  putchar-Yields : (c : ℕ) → Yields MayFault (Sized n) (λ _. Unit {0}) (putchar c)
  unfolding putchar
  putchar-Yields c = Yields-modify _ λ p i. record {
    valid = record { words = i.valid.words; bytes = i.valid.bytes };
    same_size = i.same_size;
  }

  arm_exception-Yields :
      (exception : ℕ) → Yields MayFault (Sized n) Anything (arm_exception exception)
  unfolding arm_exception
  arm_exception-Yields exception =
      let R = Sized-Regime n in
      Yields-if (exception == software_interrupt)
        (Yields-bind (arm_read_register-Yields R 15 (omega arith)) λ address _.
          Yields-bind (arm_read_word-Yields R (sub32 address 8) m.junk m.junk_lt) λ r _.
            Yields-if (bit_and r.1 0xFFFFFF == 0x123456) (Yields-pure _ tt) (
              Yields-if (bit_and r.1 0xFFFFFF == 1)
                (Yields-bind (arm_read_register-Yields R 0 (omega arith))
                  λ value _. Yields-then (putchar-Yields value) (Yields-pure _ tt))
                (reset_or_return-Yields exception)))
        (reset_or_return-Yields exception)

module _ ⦃m : Machine⦄ (n : ℕ) where
  interrupt-Keeps : (byte : ℕ) → Keeps n (interrupt byte)
  unfolding interrupt
  interrupt-Keeps byte =
      Yields-bind
        (on_arm-Keeps n λ p v.
          Fault.mono
            ((arm_exception-Yields p.mem.taille byte).run p
              (record { valid = v; same_size = refl }))
            λ r h. (h.1.valid, h.1.same_size))
        λ result _. Yields-pure tt tt

  Step-WellFormed : {gdb gdb' : Gdb} → Step gdb gdb' → WellFormed n gdb → WellFormed n gdb'
  Step-WellFormed (packet fuel text e) w =
      (Fault.returned ((gdb_packet_analysis-Keeps n fuel text).run _ w) e).1
  Step-WellFormed (resend e) w = (Fault.returned ((gdb_transmit_packet-Keeps n).run _ w) e).1
  Step-WellFormed (refuse e) w = (Fault.returned ((gdb_require_retransmission-Keeps n).run _ w) e).1
  Step-WellFormed (irq byte e) w = (Fault.returned ((interrupt-Keeps byte).run _ w) e).1

  Reaches-WellFormed : {gdb gdb' : Gdb} → Reaches gdb gdb' → WellFormed n gdb → WellFormed n gdb'
  Reaches-WellFormed here w = w
  Reaches-WellFormed (then_step r s) w = Step-WellFormed s (Reaches-WellFormed r w)

module _ ⦃m : Machine⦄ (contents points : Cells) (arm : Core) where
  -- From a new session on a valid processor, any sequence of packets and interrupts that makes no
  -- access outside an allocated object leads to a session with a sorted table of breakpoints, a
  -- valid processor and a memory of the size that it had.
  pub gdb_init_data-WellFormed :
      (gdb : Gdb)
      → IsValid arm
      → Reaches (gdb_init_data contents points arm) gdb
      → WellFormed arm.mem.taille gdb
  unfolding gdb_init_data
  gdb_init_data-WellFormed gdb v r = Reaches-WellFormed arm.mem.taille r (record {
    table = record { increasing = λ i j p q. absurd (omega arith); fits = omega arith };
    valid = v;
    same_size = refl;
  })
