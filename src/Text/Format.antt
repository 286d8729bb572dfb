-- ===== src/Text/Format.antt =====
-- The formats of printf that trace.c uses.
use projet_prog.Base.{ℕ, zero, suc, ◌+◌, ◌-◌, ◌/◌, ◌%◌, ◌^◌, ltb, if◌then◌else◌, [], ◌∷◌, ◌++◌}
use projet_prog.Text.{Bytes, codes}

-- printf's %d of a number with at most `width` digits, and of an int by its 32-bit pattern.
unfoldable pub decimal : (width v : ℕ) → Bytes
decimal zero v = []
decimal (suc width) v =
    let rest = decimal width (v / 10) in
    if ltb v 10 then (b'0' + v) ∷ [] else rest ++ ((b'0' + v % 10) ∷ [])

unfoldable pub int_text : ℕ → Bytes
int_text v = if ltb v (2 ^ 31) then decimal 10 v else b'-' ∷ decimal 10 (2 ^ 32 - v)

-- printf's %0kX: the lowest k digits.
unfoldable pub upper_digits : (v k : ℕ) → Bytes
upper_digits v zero = []
upper_digits v (suc k) =
    let d = v / 16 ^ k % 16 in (if ltb d 10 then b'0' + d else b'A' + (d - 10)) ∷ upper_digits v k

-- printf's %3s
unfoldable pub padded : Bytes → Bytes
padded [] = codes "   "
padded (x ∷ []) = codes "  " ++ (x ∷ [])
padded (x ∷ y ∷ []) = codes " " ++ (x ∷ y ∷ [])
padded s = s
