-- ===== src/Gdb/Scan.antt =====
-- gdb_protocol.c: how the arguments of a request are read. A request is the list of the bytes from
-- its first argument to the end of the packet; a pointer into it is a tail of the list, and `none`
-- is a read behind its end. What sscanf does not assign stays an uninitialised local.
use projet_prog.Base.{ℕ, u8, Option, none, some, [], ◌∷◌, Machine}
use projet_prog.Text.{Bytes, scan_hex, scan_hex_within, literal, after_index, hex8}
use projet_prog.Gdb.State.{Session, put_text}

-- A text that is read from: it has a byte.
unfoldable pub readable : Bytes → Option Bytes
readable [] = none
readable (c ∷ s) = some (c ∷ s)

-- index(text, c) + 1, to be read from
unfoldable pub behind : ℕ → Bytes → Option Bytes
behind c s = elim (after_index c s) [ none ↦ none | some rest ↦ readable rest ]

unfoldable pub write_uint32 : ℕ → ℕ → Session (Unit {0})
write_uint32 position value = put_text position (hex8 value)

module _ ⦃m : Machine⦄ where
  unfoldable pub assigned : Option (ℕ × Bytes) → ℕ
  assigned none = m.junk
  assigned (some (value, rest)) = value

  unfoldable pub read_uint32 : Bytes → ℕ
  read_uint32 s = assigned (scan_hex_within 8 s)

  -- "%x,%x"
  unfoldable pub scan_second : ℕ → Option Bytes → ℕ × ℕ
  scan_second first none = (first, m.junk)
  scan_second first (some s) = (first, assigned (scan_hex s))

  unfoldable pub scan_first : Option (ℕ × Bytes) → ℕ × ℕ
  scan_first none = (m.junk, m.junk)
  scan_first (some (first, rest)) = scan_second first (literal b',' rest)

  unfoldable pub scan_pair : Bytes → ℕ × ℕ
  scan_pair s = scan_first (scan_hex s)

  -- "%hhx,%x,%x": the third number is not used.
  unfoldable pub scan_point : Bytes → ℕ × ℕ
  scan_point s = let (type, address) = scan_pair s in (u8 type, address)
