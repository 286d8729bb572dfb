-- ===== src/Debug/Search.antt =====
-- debug.c: the binary search of the names.
use projet_prog.Base.{
  ℕ, zero, suc, ◌+◌, ◌-◌, ◌/◌, ◌<◌, ◌≤◌, ◌≡◌, ◌⊎◌, ◌∙◌, sym, arith, refl, true, false, inl, inr, ap,
  subst,
}
use projet_prog.Text.{Bytes, before}
use projet_prog.Text.Order.{before_irreflexive, before_total}
use projet_prog.Debug.{Debugged, Names, max_files_number, name_loop, is_debugged}

-- No name below n comes before an earlier one.
abbrev pub Sorted : Names → ℕ → Type 0
Sorted f n = (i j : ℕ) → i < j → j < n → before (f j) (f i) ≡ false

-- The names as the code keeps them.
pub record IsSorted (d : Debugged) : Type 0 where
  pub sorted : Sorted d.debugged_files d.nb_debugged_files
  pub fits : d.nb_debugged_files ≤ max_files_number

abbrev pub Among : Names → (n : ℕ) → Bytes → Type 0
Among f n name = (i : ℕ) × (i < n) × (f i ≡ name)

abbrev pub Debugs : Debugged → Bytes → Type 0
Debugs d name = Among d.debugged_files d.nb_debugged_files name

module _ (f : Names) (name : Bytes) (n : ℕ) (s : Sorted f n) where
  -- A name is not left of a smaller one, nor right of a larger one.
  not_before : (m i : ℕ) → before (f m) name ≡ true → m < n → f i ≡ name → m < i
  not_before m i b h e =
      let below : i < m → before (f m) name ≡ false =
        λ p. subst (λ t. before (f m) t ≡ false) e (s i m p h) in
      let here : m ≡ i → before (f m) name ≡ false =
        λ p. subst (λ t. before t name ≡ false) (sym e ∙ ap f (sym p)) (before_irreflexive name) in
      ground (arith, below, here)

  not_behind : (m i : ℕ) → before name (f m) ≡ true → i < n → f i ≡ name → i < m
  not_behind m i b h e =
      let above : m < i → before name (f m) ≡ false =
        λ p. subst (λ t. before t (f m) ≡ false) e (s m i p h) in
      let here : m ≡ i → before name (f m) ≡ false =
        λ p. subst (λ t. before name t ≡ false) (sym e ∙ ap f (sym p)) (before_irreflexive name) in
      ground (arith, above, here)

  -- strcmp tells a name to be the same as itself.
  itself :
      (k i : ℕ) → f i ≡ name → k ≡ i → (before (f k) name ≡ false) × (before name (f k) ≡ false)
  itself k i e p =
      let same = sym e ∙ ap f (sym p) in
      (
        subst (λ t. before t name ≡ false) same (before_irreflexive name),
        subst (λ t. before name t ≡ false) same (before_irreflexive name),
      )

  name_loop-found :
      (fuel from end i : ℕ)
      → end ≤ n
      → end < from + fuel
      → from ≤ i
      → i < end
      → f i ≡ name
      → name_loop fuel f name from end ≡ 1
  unfolding name_loop
  name_loop-found zero from end i p q low high e = absurd (omega arith)
  name_loop-found (suc fuel) from end i p q low high e =
      let middle = (from + (end - 1)) / 2 in
      let below = λ (b : before (f middle) name ≡ true). not_before middle i b in
      let beyond = λ (b : before name (f middle) ≡ true). not_behind middle i b in
      let left = name_loop-found fuel from middle i in
      let right = name_loop-found fuel (middle + 1) end i in
      ground (arith, below, beyond, left, right, e, itself from i e)

  there : (i : ℕ) → i < n → before (f i) name ≡ false → before name (f i) ≡ false → Among f n name
  there i h b c = (i, h, before_total (f i) name b c)

  name_loop_sound :
      (fuel from end : ℕ)
      → end ≤ n
      → (name_loop fuel f name from end ≡ 0)
        ⊎ ((name_loop fuel f name from end ≡ 1) × Among f n name)
  unfolding name_loop
  name_loop_sound zero from end p = inl refl
  name_loop_sound (suc fuel) from end p =
      let middle = (from + (end - 1)) / 2 in
      let left = name_loop_sound fuel from middle in
      let right = name_loop_sound fuel (middle + 1) end in
      ground (arith, left, right, there middle, there from)

-- Among sorted names the search answers 1 for a name that is there, and 0 for one that is not.
pub is_debugged-Debugs :
    (d : Debugged) (name : Bytes)
    → IsSorted d
    → (Debugs d name → is_debugged name d ≡ 1) × (¬ Debugs d name → is_debugged name d ≡ 0)
unfolding is_debugged
is_debugged-Debugs d name t =
    let f = d.debugged_files in
    let n = d.nb_debugged_files in
    (
      λ (i, h, e).
          name_loop-found f name n t.sorted (suc n) 0 n i (omega arith) (omega arith) (omega arith)
            h e,
      λ absent. elim (name_loop_sound f name n t.sorted (suc n) 0 n (omega arith)) [
        | inl none_found ↦ none_found
        | inr found ↦ absurd (absent found.1)
      ],
    )
