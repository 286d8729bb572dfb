-- ===== src/LoadStore/Choice.antt =====
-- Which transfer the dispatchers of arm_load_store.c choose.
use projet_prog.Base.{
  ℕ, ◌/◌, ◌%◌, ◌^◌, ◌≡◌, ◌∙◌, ap, refl, arith, ◌>>>◌, bit_and, bit_and_mask, Option, none, some,
  ◌==◌, if◌then◌else◌, Machine, true, false, Bool-cases, inl, inr, sym,
}
use projet_prog.Core.{Core, M, pure, ◌>>=◌, ◌>>◌}
use projet_prog.Core.Values.{onward}
use projet_prog.LoadStore.{store, load, arm_load_store}
use projet_prog.LoadStore.Single.{strh, strb_strh, ldr, ldrb, ldrb_ldrh}
use projet_prog.LoadStore.Store.{str}

-- A dispatcher drops the code of what it calls and returns 0.
abbrev pub dropping : M ℕ → M ℕ
dropping f = f >> pure 0

-- The rest of a dispatcher after the call.
ended : Option (ℕ × Core) → Option (ℕ × Core)
ended none = none
ended (some (r, p)) = some (0, p)

dropping-ended : (f : M ℕ) (p : Core) → dropping f p ≡ ended (f p)
unfolding ◌>>◌ ◌>>=◌ pure ended
dropping-ended f p =
    elim (f p) as (λ o. (elim o [ none ↦ none | some (a, p') ↦ some (0, p') ]) ≡ ended o) [
      | none ↦ refl
      | some r ↦ refl
    ]

ended-ended : (o : Option (ℕ × Core)) → ended (ended o) ≡ ended o
unfolding ended
ended-ended none = refl
ended-ended (some r) = refl

dropping-dropping : (f : M ℕ) (p : Core) → dropping (dropping f) p ≡ dropping f p
dropping-dropping f p =
    dropping-ended (dropping f) p
    ∙ ap ended (dropping-ended f p)
    ∙ ended-ended (f p)
    ∙ sym (dropping-ended f p)

-- A dispatcher that calls what equals a dispatcher.
dropping-equal : (f g : M ℕ) (p : Core) → f p ≡ dropping g p → dropping f p ≡ dropping g p
unfolding ◌>>=◌ ◌>>◌
dropping-equal f g p e = onward f (dropping g) (λ _. pure 0) e ∙ dropping-dropping g p

module _ ⦃m : Machine⦄ (ins : ℕ) (p : Core) (c2 : ins / 2 ^ 25 % 8 ≡ 2) where
  not_zero : (ins == 0) ≡ false
  not_zero = ground arith

  bit26 : bit_and (ins >>> 26) 1 ≡ 1
  bit26 = omega (arith, bit_and_mask 1 (ins >>> 26))

  abbrev stores : ℕ → M ℕ
  stores b = if b == 0 then str ins else strh ins

  abbrev loads : ℕ → M ℕ
  loads b = if b == 0 then ldr ins else ldrb ins

  store-stores : store ins p ≡ dropping (stores (ins / 2 ^ 22 % 2)) p
  unfolding store strb_strh ◌>>◌
  store-stores =
      rw (not_zero, bit_and_mask 1 (ins >>> 22))
        (elim (Bool-cases (ins / 2 ^ 22 % 2 == 0)) [
          | inl word ↦ rw word refl
          | inr byte ↦
              let one : (ins / 2 ^ 22 % 2 == 1) ≡ true = ground arith in
              rw (byte, one, bit26) (dropping-dropping (strh ins) p)
        ])

  load-loads : load ins p ≡ dropping (loads (ins / 2 ^ 22 % 2)) p
  unfolding load ldrb_ldrh ◌>>◌
  load-loads =
      rw (not_zero, bit_and_mask 1 (ins >>> 22))
        (elim (Bool-cases (ins / 2 ^ 22 % 2 == 0)) [
          | inl word ↦ rw word refl
          | inr byte ↦
              let one : (ins / 2 ^ 22 % 2 == 1) ≡ true = ground arith in
              rw (byte, one, bit26) (dropping-dropping (ldrb ins) p)
        ])

  -- For an instruction of the class of single transfers, arm_load_store returns 0 after one
  -- transfer, whose code it drops: by the bits L (20) and B (22) it is str, strh (for STRB too),
  -- ldr or ldrb; strb and ldrh are never called.
  pub arm_load_store-transfer :
      arm_load_store ins p
      ≡ dropping
          (if ins / 2 ^ 20 % 2 == 0
            then (if ins / 2 ^ 22 % 2 == 0 then str ins else strh ins)
            else if ins / 2 ^ 22 % 2 == 0
            then ldr ins
            else ldrb ins)
          p
  unfolding arm_load_store ◌>>◌
  arm_load_store-transfer =
      rw (not_zero, bit_and_mask 1 (ins >>> 20))
        (elim (Bool-cases (ins / 2 ^ 20 % 2 == 0)) [
          | inl writes ↦
              rw writes (dropping-equal (store ins) (stores (ins / 2 ^ 22 % 2)) p store-stores)
          | inr reads ↦
              let one : (ins / 2 ^ 20 % 2 == 1) ≡ true = ground arith in
              rw (reads, one) (dropping-equal (load ins) (loads (ins / 2 ^ 22 % 2)) p load-loads)
        ])
