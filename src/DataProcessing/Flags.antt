-- ===== src/DataProcessing/Flags.antt =====
-- What UpdateCpsr does to the flags and to the rest of the state.
use projet_prog.Base.{
  ℕ, max, ◌/◌, ◌%◌, ◌^◌, ◌<◌, ◌≡◌, ◌≢◌, ◌⊎◌, inl, inr, refl, ap, arith, bit_and, bit_or, ◌>>>◌,
  ◌<<<◌, as_int, ◌==◌, leb, some, bit, bit-bit_or, bit-eq-div, bit_and_mask, bit_or-mod,
  bit_and-mod, bit_and-bit_and, if◌then◌else◌, ==_iff, ◌∙◌, false,
}
use projet_prog.Core.{Core, pure, ◌>>=◌, asks, modify, arm_read_cpsr, arm_write_cpsr}
use projet_prog.Conditions.Meaning.{Flags, flags, masked_flag}
use projet_prog.Registers.{cpsr_mask, registers_read_cpsr, registers_write_cpsr}
use projet_prog.DataProcessing.Alu.{new_cpsr, update_cpsr, no_v}

-- The flag V that the caller asked for.
abbrev asked : ℕ → ℕ
asked v = if v == 255 then 0 else v

-- A word with the four flags, over the low bits of x.
abbrev HasFlags : (x c n z v y : ℕ) → Type 0
HasFlags x c n z v y =
    (y / 2 ^ 31 % 2 ≡ n)
    × (y / 2 ^ 30 % 2 ≡ z)
    × (y / 2 ^ 29 % 2 ≡ c)
    × (y / 2 ^ 28 % 2 ≡ asked v)
    × (y % 2 ^ 28 ≡ x % 2 ^ 28)

-- Bits 31 to 28 of the value that UpdateCpsr computes.
module _ (x c n z v : ℕ) (c2 : c < 2) (n2 : n < 2) (z2 : z < 2) where
  kept : ℕ
  kept = bit_or (bit_or (bit_or (bit_and x 0x0FFFFFFF) (c <<< 29)) (n <<< 31)) (z <<< 30)

  kept-bit :
      (i : ℕ)
      → kept / 2 ^ i % 2
        ≡ max
            (max
              (max (bit_and x 0x0FFFFFFF / 2 ^ i % 2) ((c <<< 29) / 2 ^ i % 2))
              ((n <<< 31) / 2 ^ i % 2))
            ((z <<< 30) / 2 ^ i % 2)
  unfolding kept
  kept-bit i =
      let a = bit_and x 0x0FFFFFFF in
      let ac = bit_or a (c <<< 29) in
      let acn = bit_or ac (n <<< 31) in
      omega (
        arith,
        bit-eq-div i (bit_or acn (z <<< 30)),
        bit-bit_or i acn (z <<< 30),
        bit-eq-div i (z <<< 30),
        bit-bit_or i ac (n <<< 31),
        bit-eq-div i (n <<< 31),
        bit-bit_or i a (c <<< 29),
        bit-eq-div i (c <<< 29),
        bit-eq-div i a,
      )

  kept-nzcv :
      (kept / 2 ^ 31 % 2 ≡ n)
      × (kept / 2 ^ 30 % 2 ≡ z)
      × (kept / 2 ^ 29 % 2 ≡ c)
      × (kept / 2 ^ 28 % 2 ≡ 0)
  kept-nzcv =
      let low = bit_and_mask 28 x in
      (
        omega (arith, kept-bit 31, low),
        omega (arith, kept-bit 30, low),
        omega (arith, kept-bit 29, low),
        omega (arith, kept-bit 28, low),
      )

  kept-low : kept % 2 ^ 28 ≡ x % 2 ^ 28
  unfolding kept
  kept-low =
      let a = bit_and x 0x0FFFFFFF in
      let ac = bit_or a (c <<< 29) in
      omega (
        arith,
        bit_or-mod 28 (bit_or ac (n <<< 31)) (z <<< 30) (omega arith),
        bit_or-mod 28 ac (n <<< 31) (omega arith),
        bit_or-mod 28 a (c <<< 29) (omega arith),
        bit_and_mask 28 x,
      )

  new_cpsr-HasFlags : (v < 2) ⊎ (v ≡ 255) → HasFlags x c n z v (new_cpsr x c n z v)
  unfolding new_cpsr kept
  new_cpsr-HasFlags (inr e) =
      let (h31, h30, h29, h28) = kept-nzcv in rw ((==_iff v 255).1 e) (h31, h30, h29, h28, kept-low)
  new_cpsr-HasFlags (inl small) =
      let (h31, h30, h29, h28) = kept-nzcv in
      let set : (i : ℕ)
          → bit_or kept (v <<< 28) / 2 ^ i % 2 ≡ max (kept / 2 ^ i % 2) ((v <<< 28) / 2 ^ i % 2) =
        λ i. omega (
          arith,
          bit-eq-div i (bit_or kept (v <<< 28)),
          bit-bit_or i kept (v <<< 28),
          bit-eq-div i kept,
          bit-eq-div i (v <<< 28),
        ) in
      let keeps = bit_or-mod 28 kept (v <<< 28) (omega arith) in
      let asks_v : (v == 255) ≡ false = ground arith in
      rw asks_v (
        omega (arith, set 31, h31),
        omega (arith, set 30, h30),
        omega (arith, set 29, h29),
        omega (arith, set 28, h28),
        omega (arith, keeps, kept-low),
      )

-- `p'` is `p` with the given flags in its cpsr.
pub record FlagsSet (f : Flags) (p p' : Core) : Type 0 where
  pub set : flags p' ≡ f
  pub low_bits : p'.reg 16 % 2 ^ 28 ≡ registers_read_cpsr p.reg % 2 ^ 28
  pub other_registers : (j : ℕ) → j ≢ 16 → p'.reg j ≡ p.reg j
  pub same_mem : p'.mem ≡ p.mem
  pub same_cycles : p'.cycle_count ≡ p.cycle_count
  pub same_stdout : p'.stdout ≡ p.stdout

-- N and Z of a result, with the given C and V.
abbrev pub result_flags : (dest c v : ℕ) → Flags
result_flags dest c v = record { n = leb (2 ^ 31) dest; z = dest == 0; c = c == 1; v = v == 1 }

-- The state after the write of a computed cpsr.
with_cpsr : (p : Core) (y : ℕ) → Core
with_cpsr p y = record p { reg = registers_write_cpsr p.reg y }

zero_test : (dest : ℕ) → (as_int (dest == 0) == 1) ≡ (dest == 0)
zero_test dest = ground arith

v_test : (v : ℕ) → (v < 2) ⊎ (v ≡ 255) → (asked v == 1) ≡ (v == 1)
v_test v h = ground arith

FlagsSet-written :
    (p : Core) (y dest c v : ℕ)
    → dest < 2 ^ 32
    → (v < 2) ⊎ (v ≡ 255)
    → HasFlags (registers_read_cpsr p.reg) c (bit_and (dest >>> 31) 1) (as_int (dest == 0)) v y
    → FlagsSet (result_flags dest c v) p (with_cpsr p y)
unfolding with_cpsr registers_write_cpsr registers_read_cpsr bit
FlagsSet-written p y dest c v w vs (h31, h30, h29, h28, low) = record {
  set =
      let sign : (bit_and (dest >>> 31) 1 == 1) ≡ leb (2 ^ 31) dest =
        rw (bit_and_mask 1 (dest >>> 31)) (ground arith) in
      rw
        (
          masked_flag y 31 refl,
          masked_flag y 30 refl,
          masked_flag y 29 refl,
          masked_flag y 28 refl,
          h31,
          h30,
          h29,
          h28,
          sign,
          zero_test dest,
          v_test v vs,
        )
        refl;
  low_bits =
      bit_and-mod 28 y (bit_and (p.reg 16) cpsr_mask) cpsr_mask low
      ∙ ap (λ (t : ℕ). t % 2 ^ 28) (bit_and-bit_and 32 (p.reg 16) cpsr_mask (omega arith));
  other_registers = λ j h. ground arith;
  same_mem = refl;
  same_cycles = refl;
  same_stdout = refl;
}

-- UpdateCpsr with the bit S set and a destination other than the pc succeeds: it sets N and Z from
-- the result, C and V from its arguments (V clear when asked to leave V alone), and changes no
-- other bit of the masked cpsr and nothing else in the state.
pub update_cpsr-FlagsSet :
    (p : Core) (dest rd c v : ℕ)
    → dest < 2 ^ 32
    → rd ≢ 15
    → c < 2
    → (v < 2) ⊎ (v ≡ no_v)
    → (p' : Core) × (update_cpsr dest 1 rd c v p ≡ some (tt, p'))
      × FlagsSet (result_flags dest c v) p p'
unfolding update_cpsr with_cpsr arm_read_cpsr arm_write_cpsr asks modify pure ◌>>=◌
update_cpsr-FlagsSet p dest rd c v w other c2 vs =
    let n = bit_and (dest >>> 31) 1 in
    let x = registers_read_cpsr p.reg in
    let y = new_cpsr x c n (as_int (dest == 0)) v in
    let z2 : as_int (dest == 0) < 2 = ground arith in
    let n2 : n < 2 = omega (arith, bit_and_mask 1 (dest >>> 31)) in
    let not_pc : (rd == 15) ≡ false = ground arith in
    (
      with_cpsr p y,
      rw not_pc refl,
      FlagsSet-written p y dest c v w vs
          (new_cpsr-HasFlags x c n (as_int (dest == 0)) v c2 n2 z2 vs),
    )
