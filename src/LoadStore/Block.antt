-- ===== src/LoadStore/Block.antt =====
-- arm_load_store.c: stm and ldm.
use projet_prog.Base.{
  ℕ, zero, suc, Bool, not, ◌+◌, ◌>>>◌, bit_and, add32, sub32, u8, minus_one, ◌==◌, ◌&&◌,
  if◌then◌else◌, Machine,
}
use projet_prog.Core.{
  M, pure, ◌>>=◌, ◌>>◌, arm_read_register, arm_write_register, arm_read_byte, arm_write_byte,
}
use projet_prog.LoadStore.Single.{source_field}

-- ((ins >> i) & 1) != 1
abbrev pub not_listed : ℕ → ℕ → Bool
not_listed i ins = not (bit_and (ins >>> i) 1 == 1)

-- Store register i at addr, then go on from `next`.
abbrev pub store_register : (i addr : ℕ) → M ℕ → M ℕ
store_register i addr next = do
  value ← arm_read_register i
  code ← arm_write_byte addr (u8 value)
  if code == 0 then next else pure minus_one

-- for (; i < 15; i++), with n rounds left: modes DA, IA, DB and IB
unfoldable pub stm_loop : (n i ins addr : ℕ) → M ℕ
stm_loop zero i ins addr = pure 0
stm_loop (suc n) i ins addr =
    let rest = λ (a : ℕ). stm_loop n (i + 1) ins a in
    let bit_p = bit_and (ins >>> 24) 1 in
    let bit_u = bit_and (ins >>> 23) 1 in
    if not_listed i ins
    then rest addr
    else if (bit_p == 0) && (bit_u == 0)
    then store_register i addr (rest (sub32 addr 1))
    else if (bit_p == 0) && (bit_u == 1)
    then store_register i addr (rest (add32 addr 1))
    else if (bit_p == 1) && (bit_u == 0)
    then store_register i (sub32 addr 1) (rest (sub32 addr 1))
    else store_register i (add32 addr 1) (rest (add32 addr 1))

unfoldable pub stm : ℕ → M ℕ
stm ins =
    if ins == 0
    then pure minus_one
    else if bit_and (ins >>> 22) 1 == 0
    then (do addr ← arm_read_register (source_field ins); stm_loop 15 0 ins addr)
    else pure 0

-- for (; i < 15; i++), with n rounds left. Every listed register receives the one byte that was
-- read; `addr` moves on with no other use.
unfoldable pub ldm_loop : (n i ins addr value : ℕ) → M ℕ
ldm_loop zero i ins addr value = pure 0
ldm_loop (suc n) i ins addr value =
    let rest = λ (a : ℕ). ldm_loop n (i + 1) ins a value in
    let bit_u = bit_and (ins >>> 23) 1 in
    if not_listed i ins
    then rest addr
    else do arm_write_register i value; rest (if bit_u == 0 then sub32 addr 1 else add32 addr 1)

module _ ⦃m : Machine⦄ where
  unfoldable pub ldm : ℕ → M ℕ
  ldm ins =
      if ins == 0
      then pure minus_one
      else if bit_and (ins >>> 22) 1 == 0
      then (do
        addr ← arm_read_register (source_field ins)
        (code, value) ← arm_read_byte addr (u8 m.junk)
        if code == 0 then ldm_loop 15 0 ins addr value else pure minus_one)
      else pure 0
