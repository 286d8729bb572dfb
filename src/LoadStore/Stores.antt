-- ===== src/LoadStore/Stores.antt =====
-- Every load or store instruction keeps the state valid, the memory size and the output.
use projet_prog.Base.{
  ℕ, zero, suc, ◌+◌, ◌<◌, inl, inr, refl, arith, bit_and, ◌>>>◌, u8, u16, add32, sub32, minus_one,
  ◌==◌, ◌&&◌, if◌then◌else◌, Machine,
}
use projet_prog.Base.Fault.{MayFault}
use projet_prog.Registers.{nb_register}
use projet_prog.Core.{Core, M, pure, ◌>>◌, arm_read_register}
use projet_prog.Core.Valid.{Yields, Yields-bind, Yields-then, Yields-pure, Yields-if}
use projet_prog.Core.Rules.{Word, arm_read_register-Yields}
use projet_prog.Core.Regimes.{SameSize, SameSize-Regime}
use projet_prog.Core.Access.{arm_write_byte-Yields, arm_write_half-Yields}
use projet_prog.Memory.Reads.{IsCode}
use projet_prog.LoadStore.{store, load, arm_load_store, arm_load_store_multiple}
use projet_prog.LoadStore.Single.{strb, strh, strb_strh}
use projet_prog.LoadStore.Block.{stm_loop, stm, store_register, not_listed}
use projet_prog.LoadStore.Keeps.{
  test-IsCode, read, str-Yields, ldr-Yields, ldrb_ldrh-Yields, ldm-Yields,
}

module _ ⦃m : Machine⦄ (q : Core) where
  abbrev KeepsSize : M ℕ → Type 0
  KeepsSize f = Yields MayFault (SameSize q) IsCode f

  reads : (x : ℕ) → Yields MayFault (SameSize q) Word (arm_read_register (bit_and x 4))
  reads x = read (SameSize-Regime q) x

  strb-Yields : (ins : ℕ) → KeepsSize (strb ins)
  unfolding strb
  strb-Yields ins = Yields-if (ins == 0) (Yields-pure _ (inr refl)) (
      Yields-bind (reads (ins >>> 12)) λ v_dest wd. Yields-bind (reads (ins >>> 16)) λ v_source w.
        Yields-bind (arm_write_byte-Yields q v_dest (u8 v_source))
          λ c _. Yields-pure _ (test-IsCode c))

  strh-Yields : (ins : ℕ) → KeepsSize (strh ins)
  unfolding strh
  strh-Yields ins = Yields-if (ins == 0) (Yields-pure _ (inr refl)) (
      Yields-bind (reads (ins >>> 12)) λ v_dest wd. Yields-bind (reads (ins >>> 16)) λ v_source w.
        Yields-bind (arm_write_half-Yields q v_dest (u16 v_source))
          λ c _. Yields-pure _ (test-IsCode c))

  strb_strh-Yields : (ins : ℕ) → KeepsSize (strb_strh ins)
  unfolding strb_strh
  strb_strh-Yields ins =
      Yields-then
        (Yields-if _ (strb-Yields ins) (Yields-if _ (strh-Yields ins) (Yields-pure 0 (inl refl))))
        (Yields-pure 0 (inl refl))

  store_register-Yields :
      (i addr : ℕ) {next : M ℕ}
      → i < nb_register
      → KeepsSize next
      → KeepsSize (store_register i addr next)
  store_register-Yields i addr h k =
      Yields-bind (arm_read_register-Yields (SameSize-Regime q) i h) λ value w.
        Yields-bind (arm_write_byte-Yields q addr (u8 value))
          λ c _. Yields-if (c == 0) k (Yields-pure _ (inr refl))

  stm_loop-Yields : (n i ins addr : ℕ) → i + n < nb_register → KeepsSize (stm_loop n i ins addr)
  unfolding stm_loop
  stm_loop-Yields zero i ins addr h = Yields-pure 0 (inl refl)
  stm_loop-Yields (suc n) i ins addr h =
      let up = stm_loop-Yields n (i + 1) ins (add32 addr 1) (omega arith) in
      let down = stm_loop-Yields n (i + 1) ins (sub32 addr 1) (omega arith) in
      let fits : i < nb_register = omega arith in
      let p = bit_and (ins >>> 24) 1 in
      let u = bit_and (ins >>> 23) 1 in
      Yields-if (not_listed i ins) (stm_loop-Yields n (i + 1) ins addr (omega arith)) (
        Yields-if ((p == 0) && (u == 0)) (store_register-Yields i addr fits down) (
          Yields-if ((p == 0) && (u == 1)) (store_register-Yields i addr fits up) (
            Yields-if ((p == 1) && (u == 0)) (store_register-Yields i (sub32 addr 1) fits down)
              (store_register-Yields i (add32 addr 1) fits up))))

  stm-Yields : (ins : ℕ) → KeepsSize (stm ins)
  unfolding stm
  stm-Yields ins = Yields-if (ins == 0) (Yields-pure _ (inr refl)) (
      Yields-if _
        (Yields-bind (reads (ins >>> 16)) λ addr w. stm_loop-Yields 15 0 ins addr (omega arith))
        (Yields-pure 0 (inl refl)))

  -- A dispatcher drops the code of what it calls.
  dispatched :
      (ins : ℕ) {f : M ℕ}
      → KeepsSize f
      → KeepsSize (if ins == 0 then pure minus_one else f >> pure 0)
  dispatched ins k =
      Yields-if (ins == 0) (Yields-pure _ (inr refl)) (Yields-then k (Yields-pure 0 (inl refl)))

  store-Yields : (ins : ℕ) → KeepsSize (store ins)
  unfolding store
  store-Yields ins = dispatched ins (
      Yields-if _ (str-Yields (SameSize-Regime q) ins)
        (Yields-if _ (strb_strh-Yields ins) (Yields-pure 0 (inl refl))))

  load-Yields : (ins : ℕ) → KeepsSize (load ins)
  unfolding load
  load-Yields ins = dispatched ins (
      Yields-if _ (ldr-Yields (SameSize-Regime q) ins)
        (Yields-if _ (ldrb_ldrh-Yields (SameSize-Regime q) ins) (Yields-pure 0 (inl refl))))

  pub arm_load_store-Yields : (ins : ℕ) → KeepsSize (arm_load_store ins)
  unfolding arm_load_store
  arm_load_store-Yields ins =
      dispatched ins
        (Yields-if _ (store-Yields ins) (Yields-if _ (load-Yields ins) (Yields-pure 0 (inl refl))))

  pub arm_load_store_multiple-Yields : (ins : ℕ) → KeepsSize (arm_load_store_multiple ins)
  unfolding arm_load_store_multiple
  arm_load_store_multiple-Yields ins = dispatched ins (
      Yields-if _ (stm-Yields ins)
        (Yields-if _ (ldm-Yields (SameSize-Regime q) ins) (Yields-pure 0 (inl refl))))
