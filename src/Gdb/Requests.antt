-- ===== src/Gdb/Requests.antt =====
-- gdb_protocol.c: the queries, the choice of a thread and the breakpoints.
use projet_prog.Base.{
  ℕ, ◌^◌, add32, sub32, none, [], ◌∷◌, Bool, ◌&&◌, ◌||◌, ltb, ◌==◌, if◌then◌else◌, Machine,
}
use projet_prog.Base.State.{◌>>=◌, ◌>>◌, asks, modify}
use projet_prog.Breakpoints.{Table, gdb_add_breakpoint, gdb_remove_breakpoint}
use projet_prog.Text.{Bytes, codes, atoi, equals_text, starts_with}
use projet_prog.Gdb.State.{Session}
use projet_prog.Gdb.Send.{gdb_send_data}
use projet_prog.Gdb.Scan.{readable, scan_point}

unfoldable pub query_answer : Bytes → Bytes
query_answer text =
    if equals_text text (codes "Offsets")
    then codes "Text=0;Data=0;Bss=0"
    else if starts_with text (codes "Supported")
    then codes "PacketSize=400"
    else if equals_text text (codes "TStatus")
    then codes "T0;tnotrun:0"
    else if equals_text text (codes "Symbol::")
    then []
    else []

unfoldable pub query : Bytes → Session (Unit {0})
query text = gdb_send_data (query_answer text)

-- a < b of two ints, given as their patterns
abbrev pub int_lt : ℕ → ℕ → Bool
int_lt a b = ltb (add32 a (2 ^ 31)) (add32 b (2 ^ 31))

unfoldable pub thread_answer : (type value : ℕ) → Bytes
thread_answer type value =
    if ((type == b'c') || (type == b'g')) && int_lt value 1 && int_lt (sub32 0 2) value
    then codes "OK"
    else codes "E01"

unfoldable pub set_thread : Bytes → Session (Unit {0})
set_thread [] = asks λ gdb. none
set_thread (type ∷ text) = do
  number ← asks λ gdb. readable text
  gdb_send_data (thread_answer type (atoi number))

abbrev pub put_table : Table → Session (Unit {0})
put_table table = modify λ gdb. record gdb { table = table }

-- The answer after a change of the table, by its result.
unfoldable pub changed : (failure : Bytes) → ℕ × Table → Session (Unit {0})
changed failure (result, table) =
    put_table table >> gdb_send_data (if result == 0 then failure else codes "OK")

-- The type and the address of the request.
unfoldable pub set_point : ℕ × ℕ → Session (Unit {0})
set_point (type, address) gdb =
    (if type == 0
        then changed (codes "E04") (gdb_add_breakpoint gdb.table address)
        else gdb_send_data (codes "E03"))
      gdb

unfoldable pub remove_point : ℕ × ℕ → Session (Unit {0})
remove_point (type, address) gdb =
    (if type == 0
        then changed (codes "E05") (gdb_remove_breakpoint gdb.table address)
        else gdb_send_data (codes "E03"))
      gdb

module _ ⦃m : Machine⦄ where
  unfoldable pub set_breakpoint : Bytes → Session (Unit {0})
  set_breakpoint text gdb = set_point (scan_point text) gdb

  unfoldable pub remove_breakpoint : Bytes → Session (Unit {0})
  remove_breakpoint text gdb = remove_point (scan_point text) gdb
