-- ===== src/Examples/Protocol.antt =====
-- The theorems on the packets of the debugger at a concrete target.
use projet_prog.Base.{
  ℕ, ◌*◌, ◌+◌, ◌≤◌, ◌<◌, ◌≡◌, ◌≢◌, ◌↔◌, ◌⊎◌, arith, refl, u8, ◌==◌, if◌then◌else◌, some, true, [],
  ◌∷◌, ◌++◌,
}
use projet_prog.Breakpoints.{Table}
use projet_prog.Breakpoints.Find.{IsTable, Member}
use projet_prog.Registers.{registers_read_cpsr}
use projet_prog.Text.{Bytes, codes, sum, hex_value}
use projet_prog.Gdb.{Gdb, max_packet_size, handle, gdb_packet_analysis}
use projet_prog.Gdb.State.{written}
use projet_prog.Gdb.Buffer.{Holds, is_text, is_text-IsText}
use projet_prog.Gdb.Send.{gdb_send_data}
use projet_prog.Gdb.Packet.{frame}
use projet_prog.Gdb.Received.{
  packet_of, tail_of, gdb_packet_analysis-checked, gdb_packet_analysis-send_data,
}
use projet_prog.Gdb.Execute.{cont}
use projet_prog.Gdb.Reason.{told}
use projet_prog.Gdb.Stops.{Stops, cont-Stops}
use projet_prog.Gdb.Register.{write_general_registers}
use projet_prog.Gdb.Dump.{registers_dump}
use projet_prog.Gdb.Restore.{write_general_registers-dump}
use projet_prog.Gdb.Contents.{read_memory, write_memory_binary}
use projet_prog.Gdb.Pairs.{pair_text}
use projet_prog.Gdb.Fill.{finished, plain, escape, fill_text, write_memory_binary-filled}
use projet_prog.Gdb.Show.{Answered, memory_text, read_memory-shown}
use projet_prog.Gdb.Requests.{set_breakpoint, remove_breakpoint}
use projet_prog.Gdb.Points.{point_text, set_breakpoint-Member, remove_breakpoint-Member}
use projet_prog.Examples.{x86, cpu, cpu-IsValid, file, ram}

-- Breakpoints at 0, 4 and 8, and an empty buffer.
abbrev points : Table
points = record { breakpoints = λ i. i * 4; breakpoints_number = 3 }

abbrev target : Gdb
target = record {
  arm = cpu;
  target_exception = 0;
  packet = λ i. 0;
  table = points;
  len = 0;
  events = [];
}

points-IsTable : IsTable points
points-IsTable = record { increasing = λ i j p q. omega arith; fits = omega arith }

-- $?#3f
gdb_packet_analysis-checked_example :
    (u8 (sum (codes "?")) ≡ 0x3F
      → gdb_packet_analysis 0 (packet_of (codes "?") 0x3F) target
        ≡ handle 0
            (codes "?" ++ (0 ∷ tail_of 0x3F))
            (record target { events = written (codes "+") ∷ [] }))
    × (u8 (sum (codes "?")) ≢ 0x3F
        → gdb_packet_analysis 0 (packet_of (codes "?") 0x3F) target
          ≡ some (true, record target { events = written (codes "-") ∷ [] }))
gdb_packet_analysis-checked_example =
    gdb_packet_analysis-checked 0 (codes "?") 0x3F (omega arith) target

gdb_packet_analysis-send_data_example :
    (packet : Bytes) × (gdb' : Gdb) × (gdb_send_data (codes "OK") target ≡ some (tt, gdb'))
    × (gdb'.events ≡ written packet ∷ [])
    × (gdb_packet_analysis 0 packet target
        ≡ handle 0
            (codes "OK" ++ (0 ∷ tail_of (u8 (sum (codes "OK")))))
            (record target { events = written (codes "+") ∷ [] }))
unfolding is_text
gdb_packet_analysis-send_data_example =
    gdb_packet_analysis-send_data 0 (codes "OK") target target (is_text-IsText (codes "OK") refl)
      (omega arith)

-- After MOV r1, #5 at the address 0 the pc is at a breakpoint.
abbrev stopped : Gdb
stopped = record target {
  arm = record cpu {
    cycle_count = 1;
    reg = λ i. if i == 1 then 5 else if i == 15 then 4 else file i;
  };
}

cont-Stops_example :
    (cont 1 [] target ≡ some (true, told stopped))
    ↔ ((n : ℕ) × (gdb' : Gdb) × (n ≤ 1) × Stops n target gdb' × (told stopped ≡ told gdb'))
cont-Stops_example = cont-Stops 1 [] target (told stopped) points-IsTable

-- 1 and 0x23 to the address 4, the second byte escaped.
write_memory_binary-filled_example :
    (gdb' : Gdb) × (write_memory_binary (fill_text 0 0 4 2 (1 ∷ 0x7D ∷ 3 ∷ []) []) target
      ≡ some (tt, gdb'))
    × (gdb'.events ≡ written (frame (codes "OK")) ∷ [])
    × (gdb'.arm ≡ record cpu { mem = gdb'.arm.mem })
    × (gdb'.arm.mem.taille ≡ 16)
    × Holds gdb'.arm.mem.value 4 (1 ∷ 0x23 ∷ [])
    × ((i : ℕ) → (i < 4) ⊎ (4 + 2 ≤ i) → gdb'.arm.mem.value i ≡ ram.value i)
    × (gdb'.table ≡ points)
    × (gdb'.target_exception ≡ 0)
write_memory_binary-filled_example =
    write_memory_binary-filled 0 0 4 (1 ∷ 0x23 ∷ []) (1 ∷ 0x7D ∷ 3 ∷ []) []
      (plain (omega arith) (λ e. omega arith) (escape (omega arith) refl finished)) (omega arith)
      (omega arith) target (omega arith) (omega arith) (omega arith)

read_memory-shown_example :
    (0 < 16
      → 0 + 4 ≤ 16
      → 4 * 2 + 5 ≤ max_packet_size
      → Answered read_memory (pair_text 0 0 0 4 (0 ∷ [])) target (memory_text ram 4 0))
    × (16 ≤ 0 → Answered read_memory (pair_text 0 0 0 4 (0 ∷ [])) target (codes "E0E"))
read_memory-shown_example =
    read_memory-shown 0 0 0 4 [] (omega arith) (omega arith) (omega arith) (omega arith) target
      (omega arith)

-- Z0,0c,4
set_breakpoint-Member_example :
    (gdb' : Gdb) × (set_breakpoint (point_text 0 12 b',' (codes "4")) target ≡ some (tt, gdb'))
    × (gdb'.events ≡ written (frame (codes "OK")) ∷ [])
    × (gdb'.arm ≡ cpu)
    × IsTable gdb'.table
    × ((y : ℕ) → Member gdb'.table y ↔ ((y ≡ 12) ⊎ Member points y))
unfolding hex_value
set_breakpoint-Member_example =
    set_breakpoint-Member 0 12 b',' (codes "4") (omega arith) (omega arith) refl target
      points-IsTable (omega arith)

-- z0,08,4
remove_breakpoint-Member_example :
    (gdb' : Gdb) × (answer : Bytes) × (remove_breakpoint (point_text 0 8 b',' (codes "4")) target
      ≡ some (tt, gdb'))
    × (gdb'.events ≡ written (frame answer) ∷ [])
    × (Member points 8 → answer ≡ codes "OK")
    × (¬ Member points 8 → answer ≡ codes "E05")
    × (gdb'.arm ≡ cpu)
    × IsTable gdb'.table
    × ((y : ℕ) → Member gdb'.table y ↔ (Member points y × (y ≢ 8)))
unfolding hex_value
remove_breakpoint-Member_example =
    remove_breakpoint-Member 0 8 b',' (codes "4") (omega arith) (omega arith) refl target
      points-IsTable

write_general_registers-dump_example :
    (gdb' : Gdb) × (write_general_registers (registers_dump file ++ (0 ∷ [])) target
      ≡ some (tt, gdb'))
    × ((j : ℕ) → j < 16 → gdb'.arm.reg j ≡ file j)
    × (gdb'.arm.reg 16 ≡ registers_read_cpsr file)
    × ((j : ℕ) → 16 < j → gdb'.arm.reg j ≡ file j)
    × (gdb'.arm ≡ record cpu { reg = gdb'.arm.reg })
    × (gdb'.events ≡ written (frame (codes "OK")) ∷ [])
    × (gdb'.table ≡ points)
    × (gdb'.target_exception ≡ 0)
write_general_registers-dump_example = write_general_registers-dump file [] target cpu-IsValid.words
