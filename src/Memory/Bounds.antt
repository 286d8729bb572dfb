-- ===== src/Memory/Bounds.antt =====
-- What the guards of memory.c accept, refuse and let through by mistake, for each access.
use projet_prog.Base.{
  ℕ, ◌+◌, ◌^◌, ◌<◌, ◌≤◌, ◌≡◌, ◌⊎◌, arith, u32, add32, some, none, minus_one, inl, inr, lt→ltb,
  le→not_ltb,
}
use projet_prog.Memory.{Memory, set_cell, gather, memory_read_word, memory_write_word}
use projet_prog.Memory.Cells.{IsBytes, gather-out}
use projet_prog.Memory.Word.{memory_read_word-in, memory_write_word-in, word_stored}

read_past_end :
    (mem : Memory) (address old : ℕ)
    → mem.taille + 3 < 2 ^ 32
    → address < 2 ^ 32
    → (address + 3 ≡ mem.taille) ⊎ (2 ^ 32 ≤ address + 3)
    → gather u32 mem address 4 0 old ≡ none
read_past_end mem address old small word (inl e) =
    gather-out u32 mem address 3 4 0 old (omega arith) (omega arith) (omega arith)
read_past_end mem address old small word (inr wraps) =
    gather-out u32 mem address 0 4 0 old (omega arith) (omega arith) (omega arith)

-- For an array of bytes of 4 to 2 ^ 32 - 4 cells and any 32-bit address, every outcome of a word
-- read: success inside the array, -1 with the variable untouched past its end, and an access
-- outside the array where the guard is one off or its sum wraps.
pub memory_read_word_bounds :
    (mem : Memory) (address old be : ℕ)
    → IsBytes mem
    → 3 < mem.taille
    → mem.taille + 3 < 2 ^ 32
    → address < 2 ^ 32
    → (address + 3 < mem.taille → (v : ℕ) × (memory_read_word mem address old be ≡ some (0, v)))
      × (mem.taille < address + 3
          → address + 3 < 2 ^ 32
          → memory_read_word mem address old be ≡ some (minus_one, old))
      × ((address + 3 ≡ mem.taille) ⊎ (2 ^ 32 ≤ address + 3)
          → memory_read_word mem address old be ≡ none)
unfolding memory_read_word
memory_read_word_bounds mem address old be bytes big small word = (
  λ h. (_, memory_read_word-in mem address (omega arith) bytes h old be),
  λ h p. rw (lt→ltb mem.taille (add32 address 3) (omega arith)),
  λ h.
      rw (le→not_ltb mem.taille (add32 address 3) (omega arith))
        (rw (read_past_end mem address old small word h)),
)

-- For the same arrays and addresses, every outcome of a word write: the four bytes stored inside the
-- array, -1 with the memory untouched past its end, and an access outside the array where the guard
-- is one off or its sum wraps.
pub memory_write_word_bounds :
    (mem : Memory) (address v be : ℕ)
    → IsBytes mem
    → 3 < mem.taille
    → mem.taille + 3 < 2 ^ 32
    → address < 2 ^ 32
    → (address + 3 < mem.taille
        → memory_write_word mem address v be ≡ some (0, word_stored mem address v be))
      × (mem.taille < address + 3
          → address + 3 < 2 ^ 32
          → memory_write_word mem address v be ≡ some (minus_one, mem))
      × ((address + 3 ≡ mem.taille) ⊎ (2 ^ 32 ≤ address + 3)
          → memory_write_word mem address v be ≡ none)
unfolding memory_write_word set_cell
memory_write_word_bounds mem address v be bytes big small word = (
  λ h. memory_write_word-in mem address (omega arith) bytes h v be,
  λ h p. ground arith,
  λ h. ground arith,
)
