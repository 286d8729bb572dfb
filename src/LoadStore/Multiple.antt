-- ===== src/LoadStore/Multiple.antt =====
-- arm_load_store.c: what stm stores.
use projet_prog.Base.{
  ℕ, zero, suc, ◌+◌, ◌^◌, ◌<◌, ◌≤◌, ◌≡◌, ◌≢◌, ◌∙◌, ◌⊎◌, ap, refl, arith, bit_and, bit_and-lt_right,
  ◌>>>◌, u8, sub32, add32, Option, some, Bool, Bool-cases, inl, inr, ◌==◌, ◌&&◌, true, false,
  if◌then◌else◌, minus_one, le→not_ltb,
}
use projet_prog.Memory.{Memory, memory_get_size, memory_write_byte}
use projet_prog.Memory.Cells.{poke, set_cell-in}
use projet_prog.Registers.{Registers}
use projet_prog.Core.{
  Core, M, pure, ◌>>=◌, ◌>>◌, asks, modify, put_mem, arm_read_register, arm_write_byte,
}
use projet_prog.Core.Values.{arm_read_register-eq, after, asks-eq}
use projet_prog.LoadStore.Single.{source_field}
use projet_prog.LoadStore.Block.{not_listed, store_register, stm_loop, stm}
use projet_prog.LoadStore.Effects.{named}
use projet_prog.LoadStore.Places.{
  place-lt, place, next_base, InRange, count, walk, InRange-skip, InRange-next, walk-taille,
  walk-other, walk-place,
}

abbrev with_mem : Core → Memory → Core
with_mem p mem = record p { mem = mem }

abbrev stored : Core → Memory → Option (ℕ × Core)
stored p mem = some (0, record p { mem = mem })

memory_write_byte-in :
    (mem : Memory) (x v : ℕ) → x < mem.taille → memory_write_byte mem x v ≡ some (0, poke mem x v)
unfolding memory_write_byte memory_get_size
memory_write_byte-in mem x v h =
    rw (le→not_ltb mem.taille x (omega arith), set_cell-in mem x v h) refl

arm_write_byte-in :
    (p : Core) (x v : ℕ) → x < p.mem.taille → arm_write_byte x (u8 v) p ≡ stored p (poke p.mem x v)
unfolding arm_write_byte modify pure ◌>>◌
arm_write_byte-in p x v h =
    let write = λ (q : Core). memory_write_byte q.mem x (u8 v) in
    let final = with_mem p (poke p.mem x (u8 v)) in
    after (asks write) (λ r. put_mem r.1 >> pure r.0)
      (asks-eq write (memory_write_byte-in p.mem x (u8 v) h))
    ∙ after {p = p} {p' = final} (put_mem final.mem) (λ _. pure 0) refl
    ∙ ap (λ (w : ℕ). stored p (record p.mem { value = λ j. if j == x then w else p.mem.value j }))
        (omega arith)

store_register-next :
    (p : Core) (i x : ℕ) (next : M ℕ)
    → i < 15
    → x < p.mem.taille
    → store_register i x next p ≡ next (with_mem p (poke p.mem x (p.reg i)))
store_register-next p i x next small inside =
    let not_pc : (i == 15) ≡ false = ground arith in
    after (arm_read_register i) _ (arm_read_register-eq p i (omega arith) ∙ rw not_pc refl)
    ∙ after (arm_write_byte x (u8 (p.reg i))) _ (arm_write_byte-in p x (p.reg i) inside)

-- The bits U and P of an instruction.
abbrev pub upwards : ℕ → Bool
upwards ins = bit_and (ins >>> 23) 1 == 1

abbrev pub before : ℕ → ℕ
before ins = bit_and (ins >>> 24) 1

abbrev pub skipped : ℕ → ℕ → Bool
skipped ins j = not_listed j ins

two_values : (x : ℕ) → x < 2 → (x ≡ 0) ⊎ (x ≡ 1)
two_values x h = elim (Bool-cases (x == 0)) [
  | inl e ↦ inl (ground arith)
  | inr e ↦ inr (ground arith)
]

-- The four modes, by their bits.
abbrev chosen : (n i ins a p_bit u_bit : ℕ) → M ℕ
chosen n i ins a p_bit u_bit =
    let rest = λ (a : ℕ). stm_loop n (i + 1) ins a in
    if (p_bit == 0) && (u_bit == 0)
    then store_register i a (rest (sub32 a 1))
    else if (p_bit == 0) && (u_bit == 1)
    then store_register i a (rest (add32 a 1))
    else if (p_bit == 1) && (u_bit == 0)
    then store_register i (sub32 a 1) (rest (sub32 a 1))
    else store_register i (add32 a 1) (rest (add32 a 1))

module _ (n i ins a taille : ℕ) (small : taille ≤ 2 ^ 32) where
  same_store :
      (x x' b b' : ℕ)
      → x ≡ x'
      → b ≡ b'
      → store_register i x (stm_loop n (i + 1) ins b)
        ≡ store_register i x' (stm_loop n (i + 1) ins b')
  same_store x x' b b' e f = rw (e, f) refl

  chosen-place :
      (p_bit u_bit : ℕ)
      → (p_bit ≡ 0) ⊎ (p_bit ≡ 1)
      → (u_bit ≡ 0) ⊎ (u_bit ≡ 1)
      → InRange (u_bit == 1) (suc n) a taille
      → chosen n i ins a p_bit u_bit
        ≡ store_register i
            (place (u_bit == 1) p_bit a 0)
            (stm_loop n (i + 1) ins (next_base (u_bit == 1) a))
  chosen-place p_bit u_bit (inl p) (inl u) h =
      let r = rw u at h in rw (p, u) (same_store _ _ _ _ (omega arith) (omega arith))
  chosen-place p_bit u_bit (inl p) (inr u) h =
      let r = rw u at h in rw (p, u) (same_store _ _ _ _ (omega arith) (omega arith))
  chosen-place p_bit u_bit (inr p) (inl u) h =
      let r = rw u at h in rw (p, u) (same_store _ _ _ _ (omega arith) (omega arith))
  chosen-place p_bit u_bit (inr p) (inr u) h =
      let r = rw u at h in rw (p, u) (same_store _ _ _ _ (omega arith) (omega arith))

  -- One listed register.
  stm_loop-listed :
      InRange (upwards ins) (suc n) a taille
      → not_listed i ins ≡ false
      → stm_loop (suc n) i ins a
        ≡ store_register i
            (place (upwards ins) (before ins) a 0)
            (stm_loop n (i + 1) ins (next_base (upwards ins) a))
  unfolding stm_loop
  stm_loop-listed h e =
      rw (stm_loop, e)
        (chosen-place (before ins) (bit_and (ins >>> 23) 1)
          (two_values _ (bit_and-lt_right 1 (ins >>> 24) 1 (omega arith)))
          (two_values _ (bit_and-lt_right 1 (ins >>> 23) 1 (omega arith))) h)

pre_le : (ins : ℕ) → before ins ≤ 1
pre_le ins = omega (arith, bit_and-lt_right 1 (ins >>> 24) 1 (omega arith))

module _ (ins : ℕ) where
  abbrev walked : (n i a : ℕ) → Registers → Memory → Memory
  walked n i a = walk (upwards ins) (before ins) n i a (skipped ins)

  stm_loop-walk :
      (n i a : ℕ) (p : Core)
      → i + n ≤ 15
      → p.mem.taille ≤ 2 ^ 32
      → InRange (upwards ins) n a p.mem.taille
      → stm_loop n i ins a p ≡ stored p (walked n i a p.reg p.mem)
  unfolding stm_loop pure walk
  stm_loop-walk zero i a p small fits h = refl
  stm_loop-walk (suc n) i a p small fits h = elim (Bool-cases (not_listed i ins)) [
    | inl e ↦
        rw (stm_loop, e)
          (stm_loop-walk n (i + 1) a p (omega arith) fits
            (InRange-skip (before ins) (pre_le ins) (upwards ins) n a p.mem.taille h))
    | inr e ↦
        let x = place (upwards ins) (before ins) a 0 in
        ap (λ run. run p) (stm_loop-listed n i ins a p.mem.taille fits h e)
        ∙ store_register-next p i x _ (omega arith)
            (place-lt (before ins) (pre_le ins) (upwards ins) n a p.mem.taille h)
        ∙ stm_loop-walk n (i + 1) (next_base (upwards ins) a) (with_mem p (poke p.mem x (p.reg i)))
            (omega arith) fits
            (InRange-next (before ins) (pre_le ins) (upwards ins) n a p.mem.taille h)
        ∙ rw e refl
  ]

stm-walk :
    (ins : ℕ) (p : Core)
    → ins ≢ 0
    → bit_and (ins >>> 22) 1 ≡ 0
    → p.mem.taille ≤ 2 ^ 32
    → InRange (upwards ins) 15 (p.reg (source_field ins)) p.mem.taille
    → stm ins p ≡ stored p (walked ins 15 0 (p.reg (source_field ins)) p.reg p.mem)
unfolding stm
stm-walk ins p nonzero user fits h =
    let some_ins : (ins == 0) ≡ false = ground arith in
    let no_user : (bit_and (ins >>> 22) 1 == 0) ≡ true = ground arith in
    ap (λ b. (if b then pure minus_one else begin (bit_and (ins >>> 22) 1 == 0)) p) some_ins
    ∙ ap (λ b. begin b p) no_user
    ∙ after (arm_read_register (source_field ins)) _ (named p (ins >>> 16))
    ∙ stm_loop-walk ins 15 0 (p.reg (source_field ins)) p (omega arith) fits h
  where
    begin : Bool → M ℕ
    begin b =
        if b
        then (do addr ← arm_read_register (source_field ins); stm_loop 15 0 ins addr)
        else pure 0

-- The memory after a store of the low bytes of the listed registers: the register of rank k in the
-- list is at place k, counted from the base, and no other cell has changed.
pub record StoredBlock (ins a : ℕ) (r : Registers) (mem mem' : Memory) : Type 0 where
  pub same_size : mem'.taille ≡ mem.taille
  pub listed :
      (j : ℕ)
      → j < 15
      → not_listed j ins ≡ false
      → mem'.value (place (upwards ins) (before ins) a (count j 0 (skipped ins))) ≡ u8 (r j)
  pub others :
      (x : ℕ)
      → ((k : ℕ) → k < count 15 0 (skipped ins) → x ≢ place (upwards ins) (before ins) a k)
      → mem'.value x ≡ mem.value x

-- STM from the address in the register numbered (ins >> 16) & 4, which is r0 or r4 whatever the field
-- Rn names: without the bit 22, for a word of the instruction that is not 0 and a memory of at most
-- 4 GiB with room for fifteen bytes on the side of that address that the bit U chooses, it returns 0
-- and stores the low byte of every register of its list but the pc, which it never stores: in the
-- order of the registers, upwards from the address or downwards, from the address itself on or,
-- with the bit P, from the cell next to it on. Nothing else changes.
pub stm-StoredBlock :
    (ins : ℕ) (p : Core)
    → ins ≢ 0
    → bit_and (ins >>> 22) 1 ≡ 0
    → p.mem.taille ≤ 2 ^ 32
    → InRange (upwards ins) 15 (p.reg (source_field ins)) p.mem.taille
    → (mem : Memory) × (stm ins p ≡ some (0, record p { mem = mem }))
      × StoredBlock ins (p.reg (source_field ins)) p.reg p.mem mem
stm-StoredBlock ins p nonzero user fits h =
    let a = p.reg (source_field ins) in
    let up = upwards ins in
    let pre = before ins in
    (
      walked ins 15 0 a p.reg p.mem,
      stm-walk ins p nonzero user fits h,
      record {
        same_size = walk-taille pre (pre_le ins) up (skipped ins) p.reg 15 0 a p.mem;
        listed = λ j lt e.
            let from : 0 + j ≡ j = omega arith in
            walk-place pre (pre_le ins) up (skipped ins) p.reg 15 0 a j p.mem h lt
              (ap (skipped ins) from ∙ e)
            ∙ ap (λ k. u8 (p.reg k)) from;
        others =
            λ x other. walk-other pre (pre_le ins) up (skipped ins) p.reg 15 0 a x p.mem h other;
      },
    )
