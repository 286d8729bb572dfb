-- ===== src/Gdb/Dump.antt =====
-- gdb_protocol.c: the answer to g, and its way back by G.
use mathlib.Core.List.{append_assoc, append-nil}
use projet_prog.Base.{
  ℕ, zero, suc, ◌+◌, ◌*◌, ◌<◌, ◌≤◌, ◌≡◌, ◌∙◌, refl, sym, subst, arith, Option, some, true, none, [],
  ◌∷◌, ◌++◌, ltb, lt→ltb, if◌then◌else◌,
}
use projet_prog.Base.State.{pure, ◌>>◌, asks, after, after_step, asks-eq}
use projet_prog.Registers.{Registers, registers_read, registers_get_mode, registers_read_cpsr}
use projet_prog.Breakpoints.{Cells}
use projet_prog.Text.{Bytes, codes, size, size-append, hex8, digits, digit, digit_char}
use projet_prog.Gdb.State.{Gdb, Session, max_packet_size, store_text, put_text, put_text-eq}
use projet_prog.Gdb.Buffer.{
  Holds, IsText, none_left, one_more, IsText-append, is_text, is_text-IsText, Holds-prefix,
  store_text-append,
}
use projet_prog.Gdb.Scan.{write_uint32}
use projet_prog.Gdb.Register.{read_register, read_loop, unknown_loop}

-- The text of n registers from i on, and of n unknown ones.
unfoldable pub registers_text : Registers → (n i : ℕ) → Bytes
registers_text r zero i = []
registers_text r (suc n) i = hex8 (r i) ++ registers_text r n (i + 1)

unfoldable pub unknown_text : ℕ → Bytes
unknown_text zero = []
unknown_text (suc n) = codes "xxxxxxxx" ++ unknown_text n

-- The whole answer to g.
unfoldable pub registers_dump : Registers → Bytes
registers_dump r = registers_text r 16 0 ++ (unknown_text 25 ++ hex8 (registers_read_cpsr r))

abbrev pub with_packet : Gdb → Cells → Gdb
with_packet gdb c = record gdb { packet = c }

-- The run ends with the buffer alone changed: it holds the text.
abbrev pub Fills : Gdb → Bytes → Option (Unit {0} × Gdb) → Type 0
Fills gdb s o = (c : Cells) × (o ≡ some (tt, with_packet gdb c)) × Holds c 1 s

read_register-eq :
    (position reg : ℕ) (gdb : Gdb)
    → reg < 16
    → position + 8 < max_packet_size
    → read_register position reg gdb
      ≡ some (tt, with_packet gdb (store_text gdb.packet position (hex8 (gdb.arm.reg reg))))
unfolding read_register registers_read write_uint32 digits
read_register-eq position reg gdb h room =
    after
      (asks λ gdb.
        if ltb reg 16
        then registers_read gdb.arm.reg reg (registers_get_mode gdb.arm.reg)
        else none)
      _ (asks-eq _ (rw (lt→ltb reg 16 h, lt→ltb reg 18 (omega arith)) refl))
    ∙ put_text-eq position (hex8 (gdb.arm.reg reg)) gdb (omega arith)

module _ (gdb : Gdb) (c : Cells) (s t : Bytes) (h : Holds c 1 s) where
  pub put_behind : Holds (store_text c (1 + size s) t) 1 ((s ++ t) ++ (0 ∷ []))
  put_behind = subst (Holds _ 1) (sym (append_assoc s t (0 ∷ []))) (store_text-append s t h)

  -- A run that puts w bytes behind the text, and one that goes on behind them.
  pub fill_step :
      (w : ℕ) (run : Session (Unit {0})) (rest : ℕ → Session (Unit {0})) (u : Bytes)
      → size t ≡ w
      → run (with_packet gdb c) ≡ some (tt, with_packet gdb (store_text c (1 + size s) t))
      → ((c' : Cells)
          → Holds c' 1 ((s ++ t) ++ (0 ∷ []))
          → Fills gdb ((s ++ t) ++ u) (rest (1 + size (s ++ t)) (with_packet gdb c')))
      → Fills gdb (s ++ (t ++ u)) ((run >> rest (1 + size s + w)) (with_packet gdb c))
  fill_step w run rest u width ran more =
      let next : 1 + size (s ++ t) ≡ 1 + size s + w = omega (arith, size-append s t, width) in
      let (c', ended, held) = more (store_text c (1 + size s) t) put_behind in
      (
        c',
        after_step run (rest (1 + size s + w)) ran
            ∙ subst
                (λ n.
                  rest n (with_packet gdb (store_text c (1 + size s) t))
                  ≡ some (tt, with_packet gdb c'))
                next ended,
        subst (Holds c' 1) (append_assoc s t u) held,
      )

pub read_loop-Fills :
    (gdb : Gdb) (n i : ℕ) (s : Bytes) (c : Cells)
    → i + n ≤ 16
    → size s + n * 8 + 9 ≤ max_packet_size
    → Holds c 1 s
    → Fills gdb
        (s ++ registers_text gdb.arm.reg n i)
        (read_loop n i (1 + size s) (with_packet gdb c))
unfolding read_loop registers_text pure digits
read_loop-Fills gdb zero i s c p room h = (c, refl, subst (Holds c 1) (sym (append-nil s)) h)
read_loop-Fills gdb (suc n) i s c p room h =
    fill_step gdb c s (hex8 (gdb.arm.reg i)) h 8 (read_register (1 + size s) i)
      (read_loop n (i + 1)) (registers_text gdb.arm.reg n (i + 1)) refl
      (read_register-eq (1 + size s) i (with_packet gdb c) (omega arith) (omega arith))
      λ c' h'.
        read_loop-Fills gdb n (i + 1) (s ++ hex8 (gdb.arm.reg i)) c' (omega arith)
          (omega (arith, size-append s (hex8 (gdb.arm.reg i))))
          (Holds-prefix (s ++ hex8 (gdb.arm.reg i)) (0 ∷ []) h')

pub unknown_loop-Fills :
    (gdb : Gdb) (n : ℕ) (s : Bytes) (c : Cells)
    → size s + n * 8 + 9 ≤ max_packet_size
    → Holds c 1 s
    → Fills gdb (s ++ unknown_text n) (unknown_loop n (1 + size s) (with_packet gdb c))
unfolding unknown_loop unknown_text pure
unknown_loop-Fills gdb zero s c room h = (c, refl, subst (Holds c 1) (sym (append-nil s)) h)
unknown_loop-Fills gdb (suc n) s c room h =
    fill_step gdb c s (codes "xxxxxxxx") h 8 (put_text (1 + size s) (codes "xxxxxxxx"))
      (unknown_loop n) (unknown_text n) refl
      (put_text-eq (1 + size s) (codes "xxxxxxxx") (with_packet gdb c) (omega arith))
      λ c' h'.
        unknown_loop-Fills gdb n (s ++ codes "xxxxxxxx") c'
          (omega (arith, size-append s (codes "xxxxxxxx")))
          (Holds-prefix (s ++ codes "xxxxxxxx") (0 ∷ []) h')

pub digits-IsText : (v k : ℕ) → IsText (digits v k)
unfolding digits digit digit_char
digits-IsText v zero = none_left
digits-IsText v (suc k) = one_more (ground arith) (ground arith) (digits-IsText v k)

registers_text-IsText : (r : Registers) (n i : ℕ) → IsText (registers_text r n i)
unfolding registers_text
registers_text-IsText r zero i = none_left
registers_text-IsText r (suc n) i =
    IsText-append (digits-IsText (r i) 8) (registers_text-IsText r n (i + 1))

pub registers_dump-IsText : (r : Registers) → IsText (registers_dump r)
unfolding registers_dump is_text unknown_text
registers_dump-IsText r = IsText-append (registers_text-IsText r 16 0) (
    IsText-append (is_text-IsText (unknown_text 25) unknown)
      (digits-IsText (registers_read_cpsr r) 8))
  where
    unknown : is_text (unknown_text 25) ≡ true
    unknown = refl
