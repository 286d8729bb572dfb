-- ===== src/Debug/Insert.antt =====
-- debug.c: the insertion of a name.
use projet_prog.Base.{
  ℕ, ◌+◌, ◌-◌, ◌<◌, ◌≤◌, ◌≡◌, ◌⊎◌, ◌↔◌, ◌∙◌, sym, arith, refl, some, none, true, false, leb, ◌==◌,
  Bool-cases, inl, inr, ap,
}
use projet_prog.Text.{Bytes, before}
use projet_prog.Text.Order.{before_asymmetric, before_weak, before_irreflexive, clash}
use projet_prog.Debug.{Debugged, Names, put, max_files_number, position_loop, add_debug_to}
use projet_prog.Debug.Loops.{
  Position, put-same, put-other, shift_loop-Shifted, shift_loop-full, position, stops_before,
}
use projet_prog.Debug.Search.{Sorted, IsSorted, Debugs, Among}

-- A name put into n sorted ones at its position.
module _ (f h : Names) (name : Bytes) (n p : ℕ) (s : Sorted f n) (at : Position f name 0 n p)
    (left : (k : ℕ) → k < p → h k ≡ f k) (here : h p ≡ name)
    (right : (k : ℕ) → p ≤ k → k < n → h (k + 1) ≡ f k) where
  not_before_first : (k : ℕ) → p ≤ k → k < n → before (f k) (f p) ≡ false
  not_before_first k low high = elim (Bool-cases (k == p)) [
    | inl first ↦ let same : k ≡ p = ground arith in rw same (before_irreflexive (f p))
    | inr later ↦ s p k (ground arith) high
  ]

  not_later : (k : ℕ) → p ≤ k → k < n → before (f k) name ≡ false
  not_later k low high = elim (Bool-cases (before (f k) name)) [
    | inr later ↦ later
    | inl earlier ↦ absurd (
        clash (
          sym (before_weak (f k) name (f p) earlier (at.stopped (omega arith)))
          ∙ not_before_first k low high))
  ]

  new_left : (i : ℕ) → i < p → before name (h i) ≡ false
  new_left i q = rw (left i q) (before_asymmetric (f i) name (at.smaller i (omega arith) q))

  moved_up : (i : ℕ) → p < i → i < n + 1 → h i ≡ f (i - 1)
  moved_up i low high =
      let next : i ≡ i - 1 + 1 = omega arith in
      ap h next ∙ right (i - 1) (omega arith) (omega arith)

  place : (i : ℕ) → (i < p) ⊎ ((i ≡ p) ⊎ (p < i))
  place i = ground arith

  put_in-Sorted : Sorted h (n + 1)
  put_in-Sorted i j q r = elim (place j) [
    | inl low_j ↦ rw (left j low_j, left i (omega arith)) (s i j q (omega (arith, at.high)))
    | inr (inl at_j) ↦ rw (at_j, here) (new_left i (omega (arith, at_j)))
    | inr (inr high_j) ↦ elim (place i) [
      | inl low_i ↦ rw (moved_up j high_j r, left i low_i) (s i (j - 1) (omega arith) (omega arith))
      | inr (inl at_i) ↦
          rw (at_i, here, moved_up j high_j r) (not_later (j - 1) (omega arith) (omega arith))
      | inr (inr high_i) ↦
          rw (moved_up j high_j r, moved_up i high_i (omega arith))
            (s (i - 1) (j - 1) (omega arith) (omega arith))
    ]
  ]

  put_in-Among : (x : Bytes) → Among h (n + 1) x ↔ ((x ≡ name) ⊎ Among f n x)
  put_in-Among x = (
    λ (i, r, e). elim (place i) [
      | inl low ↦ inr (i, omega (arith, at.high), sym (left i low) ∙ e)
      | inr (inl same) ↦ inl (sym e ∙ ap h same ∙ here)
      | inr (inr high) ↦ inr (i - 1, omega arith, sym (moved_up i high r) ∙ e)
    ],
    λ m. elim m [
      | inl new ↦ (p, omega (arith, at.high), here ∙ sym new)
      | inr (i, r, e) ↦ elim (place i) [
        | inl low ↦ (i, omega arith, left i low ∙ e)
        | inr rest ↦ (i + 1, omega arith, right i (ground (arith, rest)) r ∙ e)
      ]
    ],
  )

-- To sorted names with room the insertion adds the name: the result is sorted, and has that name and
-- the former ones, and no other. To a full array it adds nothing if every name comes before the new
-- one, and otherwise it writes past the end of the array.
pub add_debug_to-Debugs :
    (d : Debugged) (name : Bytes)
    → IsSorted d
    → (d.nb_debugged_files < max_files_number
        → (d' : Debugged) × (add_debug_to name d ≡ some d')
          × IsSorted d'
          × ((x : Bytes) → Debugs d' x ↔ ((x ≡ name) ⊎ Debugs d x)))
      × (d.nb_debugged_files ≡ max_files_number
          → (((i : ℕ) → i < max_files_number → before (d.debugged_files i) name ≡ true)
              → add_debug_to name d ≡ some d)
            × ((i : ℕ)
                → i < max_files_number
                → before (d.debugged_files i) name ≡ false
                → add_debug_to name d ≡ none))
unfolding add_debug_to
add_debug_to-Debugs d name t =
    let f = d.debugged_files in
    let n = d.nb_debugged_files in
    let p = position_loop n f name 0 in
    let at : Position f name 0 n p = position d name t in
    (
      λ room.
          let (g, e, r) = shift_loop-Shifted (n - p) f n (omega arith) room in
          let h = put g p name in
          let left : (k : ℕ) → k < p → h k ≡ f k =
            λ k q. put-other g p k name (omega arith) ∙ r.kept k (omega (arith, at.high)) in
          let right : (k : ℕ) → p ≤ k → k < n → h (k + 1) ≡ f k = λ k q l.
            put-other g p (k + 1) name (omega arith) ∙ r.moved k (omega (arith, at.high)) l in
          let short : leb max_files_number p ≡ false = ground (arith, at.high, room) in
          (
            record { debugged_files = h; nb_debugged_files = n + 1 },
            rw (short, e) refl,
            record {
              sorted = put_in-Sorted f h name n p t.sorted at left (put-same g p name) right;
              fits = omega (arith, room);
            },
            put_in-Among f h name n p t.sorted at left (put-same g p name) right,
          ),
      λ full. (
        λ all. elim (Bool-cases (leb max_files_number p)) [
          | inl far ↦ rw far refl
          | inr near ↦
              absurd (clash (sym (all p (ground arith)) ∙ at.stopped (ground (arith, full))))
        ],
        λ i q b.
            let low : p ≤ i = stops_before f name p i at.smaller b in
            let short : leb max_files_number p ≡ false = ground (arith, low) in
            rw (short, shift_loop-full (n - p) f n (omega (arith, full, low)) (omega (arith, full)))
              refl,
      ),
    )
