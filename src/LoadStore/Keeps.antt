-- ===== src/LoadStore/Keeps.antt =====
-- The load and store instructions stay in their regimes: `str` and the loads in any regime, so they
-- write registers at most; the other stores in the one that keeps the size and the output.
use projet_prog.Base.{
  ℕ, zero, suc, ◌+◌, ◌<◌, inl, inr, refl, arith, bit_and, ◌>>>◌, bit_and-lt_right, u8, u16,
  minus_one, ◌==◌, if◌then◌else◌, Machine,
}
use projet_prog.Registers.{nb_register}
use projet_prog.Core.{Core, ◌>>◌, pure, arm_read_register, arm_write_register}
use projet_prog.Core.Valid.{Regime, Yields, Yields-bind, Yields-then, Yields-pure, Yields-if}
use projet_prog.Core.Rules.{Word, arm_read_register-Yields, arm_write_register-Yields}
use projet_prog.Core.Access.{arm_read_byte-Yields, arm_read_half-Yields, arm_read_word-Yields}
use projet_prog.Base.Fault.{MayFault}
use projet_prog.Memory.Reads.{IsCode}
use projet_prog.LoadStore.Single.{source_field, ldr, ldrb, ldrh, ldrb_ldrh}
use projet_prog.LoadStore.Store.{
  Locals, displaced, post_indexed, addressing, immediate_addressing, register_addressing,
  scaled_addressing, str,
}
use projet_prog.LoadStore.Block.{ldm_loop, ldm, not_listed}

bit_2-lt : (x : ℕ) → bit_and x 4 < nb_register
bit_2-lt x = omega (arith, bit_and-lt_right 3 x 4 (omega arith))

displaced-lt : (u v o : ℕ) → Word (displaced u v o)
displaced-lt u v o = ground arith

post_indexed-lt :
    (w u offset : ℕ) (l : Locals) → Word l.v_source → Word (post_indexed w u offset l).v_source
unfolding post_indexed
post_indexed-lt w u offset l h = ground arith

register_addressing-lt :
    (p w u offset : ℕ) (l : Locals)
    → Word l.v_source
    → Word (register_addressing p w u offset l).v_source
unfolding register_addressing
register_addressing-lt p w u offset l h = ground arith

module _ ⦃m : Machine⦄ where
  scaled_addressing-lt :
      (p w u shift shift_imm offset rm : ℕ) (l : Locals)
      → Word l.v_source
      → Word (scaled_addressing p w u shift shift_imm offset rm l).v_source
  unfolding scaled_addressing
  scaled_addressing-lt p w u shift shift_imm offset rm l h = ground arith

-- The code that a transfer makes of an access's code.
pub test-IsCode : (c : ℕ) → IsCode (if c == 0 then 0 else minus_one)
test-IsCode c = ground arith

module _ ⦃m : Machine⦄ {Inv : Core → Type 0} (R : Regime Inv) where
  pub read : (x : ℕ) → Yields MayFault Inv Word (arm_read_register (bit_and x 4))
  read x = arm_read_register-Yields R _ (bit_2-lt x)

  -- What a load does with the value read.
  loaded :
      (x code value : ℕ)
      → Word value
      → Yields MayFault Inv IsCode
          (if code == 0 then arm_write_register (bit_and x 4) value >> pure 0 else pure minus_one)
  loaded x code value w =
      Yields-if _
        (Yields-then (arm_write_register-Yields R _ value (bit_2-lt x) w)
          (Yields-pure 0 (inl refl)))
        (Yields-pure _ (inr refl))

  pub ldr-Yields : (ins : ℕ) → Yields MayFault Inv IsCode (ldr ins)
  unfolding ldr
  ldr-Yields ins = Yields-if _ (Yields-pure _ (inr refl)) (
      Yields-bind (read _) λ v_source w.
        Yields-bind (arm_read_word-Yields R v_source m.junk m.junk_lt) λ r h. loaded _ r.0 r.1 h.1)

  pub ldrb-Yields : (ins : ℕ) → Yields MayFault Inv IsCode (ldrb ins)
  unfolding ldrb
  ldrb-Yields ins = Yields-if _ (Yields-pure _ (inr refl)) (
      Yields-bind (read _) λ v_source w.
        Yields-bind (arm_read_byte-Yields R v_source (u8 m.junk) (omega arith))
          λ r h. loaded _ r.0 r.1 (omega arith))

  pub ldrh-Yields : (ins : ℕ) → Yields MayFault Inv IsCode (ldrh ins)
  unfolding ldrh
  ldrh-Yields ins = Yields-if _ (Yields-pure _ (inr refl)) (
      Yields-bind (read _) λ v_source w.
        Yields-bind (arm_read_half-Yields R v_source (u16 m.junk) (omega arith))
          λ r h. loaded _ r.0 r.1 (omega arith))

  pub ldrb_ldrh-Yields : (ins : ℕ) → Yields MayFault Inv IsCode (ldrb_ldrh ins)
  unfolding ldrb_ldrh
  ldrb_ldrh-Yields ins = Yields-if _ (Yields-pure _ (inr refl)) (
      Yields-then
        (Yields-if _ (ldrb-Yields ins) (Yields-if _ (ldrh-Yields ins) (Yields-pure 0 (inl refl))))
        (Yields-pure 0 (inl refl)))

  immediate_addressing-Yields :
      (bit_p bit_w bit_u x offset : ℕ) (l : Locals)
      → Word l.v_source
      → Yields MayFault Inv
          (λ (l : Locals). Word l.v_source)
          (immediate_addressing bit_p bit_w bit_u (bit_and x 4) offset l)
  unfolding immediate_addressing
  immediate_addressing-Yields bit_p bit_w bit_u x offset l w =
      let address = displaced bit_u l.v_source offset in
      Yields-if (bit_p == 0)
        (Yields-pure (post_indexed bit_w bit_u offset l) (post_indexed-lt bit_w bit_u offset l w))
        (Yields-if (bit_w == 0) (Yields-pure (record l { address = address }) w) (
          Yields-then
            (arm_write_register-Yields R _ address (bit_2-lt x)
              (displaced-lt bit_u l.v_source offset))
            (Yields-pure (record { address = address; v_source = address })
              (displaced-lt bit_u l.v_source offset))))

  addressed :
      (ins v_source : ℕ)
      → Word v_source
      → Yields MayFault Inv
          (λ (l : Locals). Word l.v_source)
          (addressing ins (source_field ins) v_source)
  unfolding addressing
  addressed ins v_source w =
      let start : Locals = record { address = m.junk; v_source = v_source } in
      Yields-if (bit_and (ins >>> 25) 1 == 0)
        (immediate_addressing-Yields _ _ _ (ins >>> 16) _ start w)
        (Yields-bind (read ins) λ offset wo.
          Yields-if (bit_and (ins >>> 4) 8 == 0)
            (Yields-pure (register_addressing _ _ _ offset start)
              (register_addressing-lt _ _ _ offset start w))
            (Yields-pure (scaled_addressing _ _ _ _ _ offset (bit_and ins 4) start)
              (scaled_addressing-lt _ _ _ _ _ offset (bit_and ins 4) start w)))

  pub str-Yields : (ins : ℕ) → Yields MayFault Inv IsCode (str ins)
  unfolding str
  str-Yields ins = Yields-if (ins == 0) (Yields-pure _ (inr refl)) (
      Yields-bind (read (ins >>> 12)) λ v_dest wd. Yields-bind (read (ins >>> 16)) λ v_source w.
        Yields-bind {P = λ (l : Locals). Word l.v_source} (addressed ins v_source w) λ l wl.
          Yields-bind (arm_read_word-Yields R v_dest l.v_source wl)
            λ r h. Yields-pure _ (test-IsCode r.0))

  ldm_loop-Yields :
      (n i ins addr value : ℕ)
      → i + n < nb_register
      → Word value
      → Yields MayFault Inv IsCode (ldm_loop n i ins addr value)
  unfolding ldm_loop
  ldm_loop-Yields zero i ins addr value h w = Yields-pure 0 (inl refl)
  ldm_loop-Yields (suc n) i ins addr value h w =
      Yields-if (not_listed i ins) (ldm_loop-Yields n (i + 1) ins addr value (omega arith) w) (
        Yields-then (arm_write_register-Yields R i value (omega arith) w)
          (ldm_loop-Yields n (i + 1) ins _ value (omega arith) w))

  pub ldm-Yields : (ins : ℕ) → Yields MayFault Inv IsCode (ldm ins)
  unfolding ldm
  ldm-Yields ins = Yields-if _ (Yields-pure _ (inr refl)) (
      Yields-if _
        (Yields-bind (read _) λ addr wa.
          Yields-bind (arm_read_byte-Yields R addr (u8 m.junk) (omega arith)) λ r h.
            Yields-if _ (ldm_loop-Yields 15 0 ins addr r.1 (omega arith) (omega arith))
              (Yields-pure _ (inr refl)))
        (Yields-pure 0 (inl refl)))
