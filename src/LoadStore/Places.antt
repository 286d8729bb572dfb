-- ===== src/LoadStore/Places.antt =====
-- arm_load_store.c: where stm puts the registers of its list.
use projet_prog.Base.{
  ℕ, zero, suc, ◌+◌, ◌-◌, ◌<◌, ◌≤◌, ◌≡◌, ◌≢◌, ◌∙◌, ap, refl, sym, arith, u8, Bool, Bool-cases, inl,
  inr, ◌==◌, true, false, if◌then◌else◌,
}
use projet_prog.Memory.{Memory}
use projet_prog.Memory.Cells.{poke}
use projet_prog.Registers.{Registers}

-- The place of register k of a list: from the base upwards or downwards, after it or before.
abbrev pub place : (up : Bool) (pre a k : ℕ) → ℕ
place up pre a k = if up then a + pre + k else a - pre - k

abbrev pub next_base : Bool → ℕ → ℕ
next_base up a = if up then a + 1 else a - 1

-- The places of n registers lie inside the memory.
abbrev pub InRange : (up : Bool) (n a taille : ℕ) → Type 0
InRange true n a taille = a + n < taille
InRange false n a taille = (n < a) × (a < taille)

-- How many of n registers from i on the test does not skip.
unfoldable pub count : (n i : ℕ) (skips : ℕ → Bool) → ℕ
count zero i skips = 0
count (suc n) i skips = (if skips i then 0 else 1) + count n (i + 1) skips

-- The memory behind the loop.
unfoldable pub walk : (up : Bool) (pre n i a : ℕ) (skips : ℕ → Bool) → Registers → Memory → Memory
walk up pre zero i a skips r mem = mem
walk up pre (suc n) i a skips r mem =
    if skips i
    then walk up pre n (i + 1) a skips r mem
    else walk up pre n (i + 1) (next_base up a) skips r (poke mem (place up pre a 0) (r i))

module _ (pre : ℕ) (one : pre ≤ 1) where
  pub InRange-skip : (b : Bool) (n a taille : ℕ) → InRange b (suc n) a taille → InRange b n a taille
  InRange-skip true n a taille h = omega arith
  InRange-skip false n a taille h = omega arith

  pub InRange-next :
      (b : Bool) (n a taille : ℕ) → InRange b (suc n) a taille → InRange b n (next_base b a) taille
  InRange-next true n a taille h = omega arith
  InRange-next false n a taille h = omega arith

  place-next :
      (b : Bool) (n a taille k : ℕ)
      → InRange b (suc n) a taille
      → place b pre (next_base b a) k ≡ place b pre a (suc k)
  place-next true n a taille k h = omega arith
  place-next false n a taille k h = omega arith

  pub place-lt : (b : Bool) (n a taille : ℕ) → InRange b (suc n) a taille → place b pre a 0 < taille
  place-lt true n a taille h = omega arith
  place-lt false n a taille h = omega arith

  -- Later places are others.
  place-apart :
      (b : Bool) (n a taille k : ℕ)
      → InRange b (suc n) a taille
      → k < n
      → place b pre a 0 ≢ place b pre a (suc k)
  place-apart true n a taille k h lt e = omega (arith, e)
  place-apart false n a taille k h lt e = omega (arith, e)

  count-le : (n i : ℕ) (skips : ℕ → Bool) → count n i skips ≤ n
  unfolding count
  count-le zero i skips = omega arith
  count-le (suc n) i skips = ground (arith, count-le n (i + 1) skips)

  module _ (up : Bool) (skips : ℕ → Bool) (r : Registers) where
    pub walk-taille :
        (n i a : ℕ) (mem : Memory) → (walk up pre n i a skips r mem).taille ≡ mem.taille
    unfolding walk
    walk-taille zero i a mem = refl
    walk-taille (suc n) i a mem = elim (Bool-cases (skips i)) [
      | inl e ↦ rw (walk, e) (walk-taille n (i + 1) a mem)
      | inr e ↦
          rw (walk, e) (walk-taille n (i + 1) (next_base up a) (poke mem (place up pre a 0) (r i)))
    ]

    -- A cell that is none of the places is left alone.
    pub walk-other :
        (n i a x : ℕ) (mem : Memory)
        → InRange up n a mem.taille
        → ((k : ℕ) → k < count n i skips → x ≢ place up pre a k)
        → (walk up pre n i a skips r mem).value x ≡ mem.value x
    unfolding walk count
    walk-other zero i a x mem h other = refl
    walk-other (suc n) i a x mem h other = elim (Bool-cases (skips i)) [
      | inl e ↦ rw e (
          walk-other n (i + 1) a x mem (InRange-skip up n a mem.taille h)
            λ k lt. other k (ground (arith)))
      | inr e ↦ rw e (
          walk-other n (i + 1) (next_base up a) x (poke mem (place up pre a 0) (r i))
            (InRange-next up n a mem.taille h)
            (λ k lt eq. other (suc k) (ground arith) (eq ∙ place-next up n a mem.taille k h))
          ∙ (let apart : (x == place up pre a 0) ≡ false = ground (arith, other 0) in
              rw apart refl))
    ]

    -- Each listed register is at the place of its rank in the list.
    pub walk-place :
        (n i a j : ℕ) (mem : Memory)
        → InRange up n a mem.taille
        → j < n
        → skips (i + j) ≡ false
        → (walk up pre n i a skips r mem).value (place up pre a (count j i skips)) ≡ u8 (r (i + j))
    unfolding walk count
    walk-place zero i a j mem h lt listed = absurd (omega arith)
    walk-place (suc n) i a zero mem h lt listed =
        let here : i + 0 ≡ i = omega arith in
        let first : skips i ≡ false = rw here at listed in
        let x = place up pre a 0 in
        rw (first, here)
          (walk-other n (i + 1) (next_base up a) x (poke mem x (r i))
              (InRange-next up n a mem.taille h)
              (λ k lt eq.
                place-apart up n a mem.taille k h (omega (arith, count-le n (i + 1) skips))
                  (eq ∙ place-next up n a mem.taille k h))
            ∙ (let itself : (x == x) ≡ true = ground arith in rw itself refl))
    walk-place (suc n) i a (suc j) mem h lt listed =
        let along : i + 1 + j ≡ i + suc j = omega arith in
        let rank = count j (i + 1) skips in
        let listed' : skips (i + 1 + j) ≡ false = ap skips along ∙ listed in
        elim (Bool-cases (skips i)) [
          | inl e ↦
              let same : 0 + rank ≡ rank = omega arith in
              rw (e, same)
                (walk-place n (i + 1) a j mem (InRange-skip up n a mem.taille h) (omega arith)
                    listed'
                  ∙ ap (λ k. u8 (r k)) along)
          | inr e ↦
              let later : 1 + rank ≡ suc rank = omega arith in
              let next =
                walk up pre n (i + 1) (next_base up a) skips r
                  (poke mem (place up pre a 0) (r i)) in
              rw (e, later)
                (ap next.value (sym (place-next up n a mem.taille rank h))
                  ∙ walk-place n (i + 1) (next_base up a) j (poke mem (place up pre a 0) (r i))
                      (InRange-next up n a mem.taille h) (omega arith) listed'
                  ∙ ap (λ k. u8 (r k)) along)
        ]
