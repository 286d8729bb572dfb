-- ===== src/Gdb/State.antt =====
-- gdb_protocol.c: the state of a connection to the debugger. The registers and the memory that the
-- source reaches through gdb->reg and gdb->mem are those of the processor gdb->arm.
use projet_prog.Base.{ℕ, ◌+◌, none, some, List, [], ◌∷◌, ltb, if◌then◌else◌, ◌<◌, ◌≡◌, refl, lt→ltb}
use projet_prog.Base.State.{Run}
use projet_prog.Core.{Core}
use projet_prog.Breakpoints.{Table, Cells, store_at}
use projet_prog.Text.{Bytes, size}

-- What the connection is asked to do: Rio_writen of some bytes, or shutdown.
pub data Event : Type 0 where
  written : Bytes → Event
  shut_down : Event

-- struct gdb_protocol_data, and the calls on its connection, the last one first.
pub record Gdb : Type 0 where
  pub arm : Core
  pub target_exception : ℕ
  pub packet : Cells
  pub table : Table
  pub len : ℕ
  pub events : List Event

abbrev pub Session : Type 0 → Type 0
Session A = Run Gdb A

-- MAX_PACKET_SIZE
abbrev pub max_packet_size : ℕ
max_packet_size = 4096

-- gdb->buffer is packet + 1.
abbrev pub buffer : ℕ
buffer = 1

-- The bytes of a text and the zero byte that ends it, from a position on.
unfoldable pub store_text : Cells → ℕ → Bytes → Cells
store_text c i [] = store_at c i 0
store_text c i (x ∷ s) = store_text (store_at c i x) (i + 1) s

-- packet[i] = v
unfoldable pub set_byte : ℕ → ℕ → Session (Unit {0})
set_byte i v gdb =
    if ltb i max_packet_size
    then some (tt, record gdb { packet = store_at gdb.packet i v })
    else none

-- strcpy, or snprintf with room for the whole text, to packet + i
unfoldable pub put_text : ℕ → Bytes → Session (Unit {0})
put_text i s gdb =
    if ltb (i + size s) max_packet_size
    then some (tt, record gdb { packet = store_text gdb.packet i s })
    else none

-- A run of the processor.
unfoldable pub on_arm : {A : Type 0} → Run Core A → Session A
on_arm m gdb = elim (m gdb.arm) [ none ↦ none | some (a, arm) ↦ some (a, record gdb { arm = arm }) ]

pub set_byte-eq :
    (i v : ℕ) (gdb : Gdb)
    → i < max_packet_size
    → set_byte i v gdb ≡ some (tt, record gdb { packet = store_at gdb.packet i v })
unfolding set_byte
set_byte-eq i v gdb h = rw (lt→ltb i max_packet_size h) refl

pub put_text-eq :
    (i : ℕ) (s : Bytes) (gdb : Gdb)
    → i + size s < max_packet_size
    → put_text i s gdb ≡ some (tt, record gdb { packet = store_text gdb.packet i s })
unfolding put_text
put_text-eq i s gdb h = rw (lt→ltb (i + size s) max_packet_size h) refl
