-- ===== src/LoadStore/Blocks.antt =====
-- arm_load_store.c: what ldm loads.
use mathlib.Core.Path.{fun_ext}
use projet_prog.Base.{
  ℕ, zero, suc, ◌+◌, ◌<◌, ◌≤◌, ◌≡◌, ◌≢◌, ◌∙◌, ap, refl, sym, arith, bit_and, ◌>>>◌, u8, Option,
  some, Bool, Bool-cases, inl, inr, ◌==◌, ◌&&◌, not, ltb, leb, true, false, if◌then◌else◌, Machine,
  lt→ltb, le→not_ltb,
}
use projet_prog.Memory.{Memory, memory_get_size, cell, memory_read_byte}
use projet_prog.Registers.{Registers, assign}
use projet_prog.Core.{Core, pure, arm_read_register, arm_write_register, arm_read_byte}
use projet_prog.Core.Values.{with_register, arm_write_register-eq, after, asks-eq}
use projet_prog.Base.State.{after_step}
use projet_prog.LoadStore.Single.{source_field}
use projet_prog.LoadStore.Block.{not_listed, ldm_loop, ldm}
use projet_prog.LoadStore.Effects.{named}

-- The registers from i on, n of them, with a value in those that the test does not skip.
abbrev pub loaded : (n i : ℕ) (skips : ℕ → Bool) (value : ℕ) → Registers → Registers
loaded n i skips value r = λ j. if leb i j && (ltb j (i + n) && not (skips j)) then value else r j

module _ (skips : ℕ → Bool) (value : ℕ) where
  loaded-zero : (i : ℕ) (r : Registers) → loaded 0 i skips value r ≡ r
  loaded-zero i r = fun_ext λ j. ground arith

  loaded-skipped :
      (n i : ℕ) (r : Registers)
      → skips i ≡ true
      → loaded n (i + 1) skips value r ≡ loaded (suc n) i skips value r
  loaded-skipped n i r e = fun_ext λ j. elim (Bool-cases (j == i)) [
    | inl same ↦ let at : j ≡ i = ground arith in rw at (ground arith)
    | inr other ↦ ground arith
  ]

  loaded-listed :
      (n i : ℕ) (r : Registers)
      → skips i ≡ false
      → loaded n (i + 1) skips value (assign r i value) ≡ loaded (suc n) i skips value r
  loaded-listed n i r e = fun_ext λ j. elim (Bool-cases (j == i)) [
    | inl same ↦ let at : j ≡ i = ground arith in rw at (ground arith)
    | inr other ↦ ground arith
  ]

abbrev skipped : ℕ → ℕ → Bool
skipped ins j = not_listed j ins

abbrev done : Core → Registers → Option (ℕ × Core)
done p r = some (0, record p { reg = r })

module _ (ins value : ℕ) where
  ldm_loop-loaded :
      (n i addr : ℕ) (p : Core)
      → i + n ≤ 15
      → ldm_loop n i ins addr value p ≡ done p (loaded n i (skipped ins) value p.reg)
  unfolding ldm_loop pure
  ldm_loop-loaded zero i addr p h = ap (done p) (sym (loaded-zero (skipped ins) value i p.reg))
  ldm_loop-loaded (suc n) i addr p h = elim (Bool-cases (not_listed i ins)) [
    | inl e ↦
        rw (ldm_loop, e)
          (ldm_loop-loaded n (i + 1) addr p (omega arith)
            ∙ ap (done p) (loaded-skipped (skipped ins) value n i p.reg e))
    | inr e ↦
        rw (ldm_loop, e)
          (after_step (arm_write_register i value) _ (arm_write_register-eq p i (omega arith) value)
            ∙ ldm_loop-loaded n (i + 1) _ (with_register p i value) (omega arith)
            ∙ ap (done p) (loaded-listed (skipped ins) value n i p.reg e))
  ]

memory_read_byte-in :
    (mem : Memory) (a old : ℕ) → a < mem.taille → memory_read_byte mem a old ≡ some (0, mem.value a)
unfolding memory_read_byte memory_get_size cell
memory_read_byte-in mem a old h =
    rw (le→not_ltb mem.taille a (omega arith), lt→ltb a mem.taille h) refl

-- LDM at the address in the register numbered (ins >> 16) & 4, which is r0 or r4 whatever the field
-- Rn names: without the bit 22, for a word of the instruction that is not 0 and an address inside the
-- memory, it returns 0 and puts the byte at that address into every register of its list but the
-- pc, which it never loads; nothing else changes.
pub ldm-loaded :
    ⦃m : Machine⦄ (ins : ℕ) (p : Core)
    → ins ≢ 0
    → bit_and (ins >>> 22) 1 ≡ 0
    → p.reg (source_field ins) < p.mem.taille
    → ldm ins p
      ≡ some (
        0,
        record p {
          reg = loaded 15 0 (λ j. not_listed j ins) (p.mem.value (p.reg (source_field ins))) p.reg;
        },
      )
unfolding ldm arm_read_byte
ldm-loaded ⦃m⦄ ins p nonzero user inside =
    let address = p.reg (source_field ins) in
    let some_ins : (ins == 0) ≡ false = ground arith in
    let no_user : (bit_and (ins >>> 22) 1 == 0) ≡ true = ground arith in
    let read = λ (q : Core). memory_read_byte q.mem address (u8 m.junk) in
    rw (some_ins, no_user)
      (after (arm_read_register (source_field ins)) _ (named p (ins >>> 16))
        ∙ after (arm_read_byte address (u8 m.junk)) _
            (asks-eq read (memory_read_byte-in p.mem address (u8 m.junk) inside))
        ∙ ldm_loop-loaded ins (p.mem.value address) 15 0 address p (omega arith))
