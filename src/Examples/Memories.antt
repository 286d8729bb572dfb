-- ===== src/Examples/Memories.antt =====
-- The theorems on memory.c and registers.c at concrete inputs.
use projet_prog.Base.{ℕ, ◌+◌, ◌<◌, ◌≡◌, ◌⊎◌, ◌^◌, ◌≤◌, arith, minus_one, some, none, if◌then◌else◌}
use projet_prog.Util.{reverse_4}
use projet_prog.Memory.{Memory, memory_read_word, memory_write_word}
use projet_prog.Memory.Word.{memory_read_word-write_word, same_order}
use projet_prog.Memory.Bounds.{memory_read_word_bounds}
use projet_prog.Examples.{ram, ram-IsBytes}

memory_read_word-write_word_example :
    (mem' : Memory) × (memory_write_word ram 4 0xDEADBEEF 1 ≡ some (0, mem'))
    × (memory_read_word mem' 4 7 0
        ≡ some (0, if same_order 1 0 then 0xDEADBEEF else reverse_4 0xDEADBEEF))
memory_read_word-write_word_example =
    memory_read_word-write_word ram 4 0xDEADBEEF 7 1 0 ram-IsBytes (omega arith) (omega arith)
      (omega arith)

memory_read_word_bounds_example :
    (13 + 3 < 16 → (v : ℕ) × (memory_read_word ram 13 0 1 ≡ some (0, v)))
    × (16 < 13 + 3 → 13 + 3 < 2 ^ 32 → memory_read_word ram 13 0 1 ≡ some (minus_one, 0))
    × ((13 + 3 ≡ 16) ⊎ (2 ^ 32 ≤ 13 + 3) → memory_read_word ram 13 0 1 ≡ none)
memory_read_word_bounds_example =
    memory_read_word_bounds ram 13 0 1 ram-IsBytes (omega arith) (omega arith) (omega arith)
