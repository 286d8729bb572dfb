-- ===== src/Gdb/Range.antt =====
-- gdb_protocol.c: the numbers that a request gives are words.
use projet_prog.Base.{
  ℕ, zero, suc, ◌+◌, ◌*◌, ◌^◌, ◌<◌, ◌≡◌, refl, arith, u32, Option, none, some, Bool, true, false,
  [], ◌∷◌, Machine, if◌then◌else◌,
}
use projet_prog.Text.{
  Bytes, hex_value, hex_digits, hex_number, hex_prefixed, hex_signed, negated, scan_hex_within,
  skip_spaces,
}
use projet_prog.Gdb.Scan.{assigned, read_uint32}

-- The number, if there is one, is a word.
data InRange : Option (ℕ × Bytes) → Type 0 where
  no_match : InRange none
  word : {v : ℕ} {s : Bytes} → v < 2 ^ 32 → InRange (some (v, s))

hex_value-small : (c d : ℕ) → hex_value c ≡ some d → d < 16
unfolding hex_value
hex_value-small c d e = grind arith

hex_digits-lt :
    (width : ℕ) (s : Bytes) (value : ℕ) → value < 2 ^ 32 → (hex_digits width s value).0 < 2 ^ 32
unfolding hex_digits
hex_digits-lt zero s value h = h
hex_digits-lt (suc width) [] value h = h
hex_digits-lt (suc width) (c ∷ s) value h =
    digit (hex_value c) λ d. hex_digits-lt width s (u32 (value * 16 + d)) (omega arith)
  where
    digit :
        (o : Option ℕ)
        → ((d : ℕ) → (hex_digits width s (u32 (value * 16 + d))).0 < 2 ^ 32)
        → (elim o as (λ _. ℕ × Bytes) [
          | none ↦ (value, c ∷ s)
          | some d ↦ hex_digits width s (u32 (value * 16 + d))
        ]).0
          < 2 ^ 32
    digit none rest = h
    digit (some d) rest = rest d

hex_number-InRange : (width : ℕ) (s : Bytes) → InRange (hex_number width s)
unfolding hex_number
hex_number-InRange zero s = no_match
hex_number-InRange (suc width) [] = no_match
hex_number-InRange (suc width) (c ∷ s) = first (hex_value c) refl
  where
    first :
        (o : Option ℕ)
        → hex_value c ≡ o
        → InRange (elim o [ none ↦ none | some d ↦ some (hex_digits width s d) ])
    first none e = no_match
    first (some d) e = word (hex_digits-lt width s d (omega (arith, hex_value-small c d e)))

either :
    (b : Bool) {o p : Option (ℕ × Bytes)} → InRange o → InRange p → InRange (if b then o else p)
either true h k = h
either false h k = k

hex_prefixed-InRange : (width : ℕ) (s : Bytes) → InRange (hex_prefixed width s)
unfolding hex_prefixed
hex_prefixed-InRange zero s = hex_number-InRange zero s
hex_prefixed-InRange (suc zero) s = hex_number-InRange (suc zero) s
hex_prefixed-InRange (suc (suc width)) [] = hex_number-InRange (suc (suc width)) []
hex_prefixed-InRange (suc (suc width)) (c ∷ []) = hex_number-InRange (suc (suc width)) (c ∷ [])
hex_prefixed-InRange (suc (suc width)) (c ∷ x ∷ s) =
    either _ (hex_number-InRange width s) (hex_number-InRange (suc (suc width)) (c ∷ x ∷ s))

negated-InRange : (o : Option (ℕ × Bytes)) → InRange (negated o)
unfolding negated
negated-InRange none = no_match
negated-InRange (some (v, s)) = word (omega arith)

hex_signed-InRange : (width : ℕ) (s : Bytes) → InRange (hex_signed width s)
unfolding hex_signed
hex_signed-InRange zero s = hex_prefixed-InRange zero s
hex_signed-InRange (suc width) [] = hex_prefixed-InRange (suc width) []
hex_signed-InRange (suc width) (c ∷ s) =
    either _ (negated-InRange (hex_prefixed width s))
      (either _ (hex_prefixed-InRange width s) (hex_prefixed-InRange (suc width) (c ∷ s)))

module _ ⦃m : Machine⦄ where
  assigned-lt : (o : Option (ℕ × Bytes)) → InRange o → assigned o < 2 ^ 32
  unfolding assigned
  assigned-lt none r = m.junk_lt
  assigned-lt (some (v, s)) (word h) = h

  pub read_uint32-lt : (s : Bytes) → read_uint32 s < 2 ^ 32
  unfolding read_uint32 scan_hex_within
  read_uint32-lt s = assigned-lt _ (hex_signed-InRange 8 (skip_spaces s))
