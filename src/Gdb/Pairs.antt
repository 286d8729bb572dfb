-- ===== src/Gdb/Pairs.antt =====
-- gdb_protocol.c: the pair of numbers that a request on the memory starts with.
use projet_prog.Base.{ℕ, suc, ◌/◌, ◌^◌, ◌<◌, ◌≡◌, ◌∙◌, ap, refl, none, ◌∷◌, ◌++◌, Machine}
use projet_prog.Text.{Bytes, digits, hex_value, literal}
use projet_prog.Text.Hex.{scan_hex-digits}
use projet_prog.Gdb.Scan.{assigned, scan_pair, scan_first, scan_second}

-- Two numbers, each in two digits or more.
abbrev pub pair_text : (j k address n : ℕ) → Bytes → Bytes
pair_text j k address n s = digits address (suc (suc j)) ++ (b',' ∷ (digits n (suc (suc k)) ++ s))

module _ ⦃m : Machine⦄ (j k address n : ℕ) where
  pub scan_pair-digits :
      (x : ℕ) (rest : Bytes)
      → address < 2 ^ 32
      → address / 16 ^ suc j < 16
      → n < 2 ^ 32
      → n / 16 ^ suc k < 16
      → hex_value x ≡ none
      → scan_pair (pair_text j k address n (x ∷ rest)) ≡ (address, n)
  unfolding scan_pair scan_first scan_second literal assigned hex_value
  scan_pair-digits x rest q word p length e =
      ap scan_first
        (scan_hex-digits j address q word b',' refl (digits n (suc (suc k)) ++ (x ∷ rest)))
      ∙ ap (λ o. (address, assigned o)) (scan_hex-digits k n p length x e rest)
