-- ===== src/Memory.antt =====
-- memory.c: a byte array with byte, half-word and word accesses of either endianness.
-- A read returns its code (0, or -1) and what the out-parameter then holds; `none` is an access
-- outside the allocated array, which C leaves undefined.
pub mod Cells
pub mod Word
pub mod Reads
pub mod Half
pub mod Frame
pub mod Bounds
use projet_prog.Base.{
  ℕ, zero, suc, ◌+◌, bit_or, ◌>>>◌, u8, u16, u32, add32, minus_one, Option, none, some, ltb, ◌==◌,
  if◌then◌else◌, ◌*◌,
}
use projet_prog.Base.Fault.{◌>>=◌}
use projet_prog.Util.{reverse_2, reverse_4}

pub record Memory : Type 0 where
  pub value : ℕ → ℕ
  pub taille : ℕ

-- The allocated bytes hold anything.
unfoldable pub memory_create : (contents : ℕ → ℕ) → ℕ → Memory
memory_create contents size = record { value = contents; taille = size }

unfoldable pub memory_get_size : Memory → ℕ
memory_get_size mem = mem.taille

-- mem->value[i] as an operand
unfoldable pub cell : Memory → ℕ → Option ℕ
cell mem i = if ltb i mem.taille then some (mem.value i) else none

-- mem->value[i] = v, the value cut to a byte
unfoldable pub set_cell : Memory → ℕ → ℕ → Option Memory
set_cell mem i v =
    if ltb i mem.taille
    then some (record mem { value = λ j. if j == i then u8 v else mem.value j })
    else none

unfoldable pub memory_read_byte : Memory → ℕ → ℕ → Option (ℕ × ℕ)
unfolding memory_get_size
memory_read_byte mem address old =
    if ltb (memory_get_size mem) address
    then some (minus_one, old)
    else do v ← cell mem address; some (0, v)

-- for (i ...; n rounds): value = value << 8; value = value | mem->value[address + i]
-- where `cast` cuts to the width of *value
unfoldable pub gather : (ℕ → ℕ) → Memory → ℕ → ℕ → ℕ → ℕ → Option ℕ
gather cast mem address zero i value = some value
gather cast mem address (suc n) i value = do
  b ← cell mem (add32 address i)
  gather cast mem address n (i + 1) (bit_or (cast (value * 256)) b)

unfoldable pub memory_read_half : Memory → ℕ → ℕ → ℕ → Option (ℕ × ℕ)
unfolding memory_get_size
memory_read_half mem address old be =
    if ltb (memory_get_size mem) (add32 address 1)
    then some (minus_one, old)
    else do v ← gather u16 mem address 2 0 old; some (0, (if be == 0 then reverse_2 v else v))

unfoldable pub memory_read_word : Memory → ℕ → ℕ → ℕ → Option (ℕ × ℕ)
unfolding memory_get_size
memory_read_word mem address old be =
    if ltb (memory_get_size mem) (add32 address 3)
    then some (minus_one, old)
    else do v ← gather u32 mem address 4 0 old; some (0, (if be == 0 then reverse_4 v else v))

unfoldable pub memory_write_byte : Memory → ℕ → ℕ → Option (ℕ × Memory)
unfolding memory_get_size
memory_write_byte mem address value =
    if ltb (memory_get_size mem) address
    then some (minus_one, mem)
    else do mem ← set_cell mem address value; some (0, mem)

unfoldable pub memory_write_half : Memory → ℕ → ℕ → ℕ → Option (ℕ × Memory)
unfolding memory_get_size
memory_write_half mem address value be =
    if ltb (memory_get_size mem) (add32 address 1)
    then some (minus_one, mem)
    else if be == 0
    then (do
      mem ← set_cell mem address value
      mem ← set_cell mem (add32 address 1) (value >>> 8)
      some (0, mem))
    else do
      mem ← set_cell mem address (value >>> 8)
      mem ← set_cell mem (add32 address 1) value
      some (0, mem)

unfoldable pub memory_write_word : Memory → ℕ → ℕ → ℕ → Option (ℕ × Memory)
unfolding memory_get_size
memory_write_word mem address value be =
    if ltb (memory_get_size mem) (add32 address 3)
    then some (minus_one, mem)
    else if be == 0
    then (do
      mem ← set_cell mem address value
      mem ← set_cell mem (add32 address 1) (value >>> 8)
      mem ← set_cell mem (add32 address 2) (value >>> 16)
      mem ← set_cell mem (add32 address 3) (value >>> 24)
      some (0, mem))
    else do
      mem ← set_cell mem address (value >>> 24)
      mem ← set_cell mem (add32 address 1) (value >>> 16)
      mem ← set_cell mem (add32 address 2) (value >>> 8)
      mem ← set_cell mem (add32 address 3) value
      some (0, mem)
