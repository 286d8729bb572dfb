-- ===== src/Gdb/Buffer.antt =====
-- The packet buffer of gdb_protocol.c as cells that hold a text.
use projet_prog.Base.{
  ℕ, zero, suc, ◌+◌, ◌<◌, ◌≤◌, ◌≡◌, ◌∙◌, refl, subst, arith, u8, ◌==◌, ◌^◌, Option, some, Bool, ltb,
  ◌&&◌, true, false, [], ◌∷◌, ◌++◌, if◌then◌else◌,
}
use projet_prog.Breakpoints.{Cells, store_at}
use projet_prog.Text.{Bytes, size, sum}
use projet_prog.Gdb.State.{store_text}
use projet_prog.Gdb.Send.{bytes_from, check_loop}

-- Bytes that a C text can have: none is zero.
pub data IsText : Bytes → Type 0 where
  none_left : IsText []
  one_more : {c : ℕ} {s : Bytes} → 0 < c → c < 2 ^ 8 → IsText s → IsText (c ∷ s)

unfoldable pub is_text : Bytes → Bool
is_text [] = true
is_text (c ∷ s) = let rest = is_text s in if ltb 0 c && ltb c (2 ^ 8) then rest else false

pub is_text-IsText : (s : Bytes) → is_text s ≡ true → IsText s
unfolding is_text
is_text-IsText [] e = none_left
is_text-IsText (c ∷ s) e = one_more (ground arith) (ground arith) (is_text-IsText s (ground arith))

-- The cells from i on hold the bytes.
pub data Holds (c : Cells) : ℕ → Bytes → Type 0 where
  nothing : {i : ℕ} → Holds c i []
  byte : {i x : ℕ} {s : Bytes} → c i ≡ x → Holds c (i + 1) s → Holds c i (x ∷ s)

pub Holds-agree :
    {c d : Cells} {i : ℕ} {s : Bytes}
    → Holds c i s
    → ((j : ℕ) → i ≤ j → j < i + size s → d j ≡ c j)
    → Holds d i s
Holds-agree nothing same = nothing
Holds-agree {i} (byte e h) same =
    byte (same i (omega arith) (omega arith) ∙ e)
      (Holds-agree h λ j p q. same j (omega arith) (omega arith))

pub Holds-append :
    {c : Cells} {i : ℕ} {s : Bytes} (t : Bytes)
    → Holds c i s
    → Holds c (i + size s) t
    → Holds c i (s ++ t)
Holds-append {c} {i} t nothing k = subst (λ j. Holds c j t) (omega arith) k
Holds-append {c} {i} t (byte {s} e h) k =
    byte e (Holds-append t h (subst (λ j. Holds c j t) (omega arith) k))

pub Holds-prefix : {c : Cells} (s t : Bytes) {i : ℕ} → Holds c i (s ++ t) → Holds c i s
Holds-prefix [] t h = nothing
Holds-prefix (x ∷ s) t (byte e h) = byte e (Holds-prefix s t h)

pub store_text-before : (c : Cells) (i : ℕ) (s : Bytes) (j : ℕ) → j < i → store_text c i s j ≡ c j
unfolding store_text
store_text-before c i [] j h = ground arith
store_text-before c i (x ∷ s) j h =
    store_text-before (store_at c i x) (i + 1) s j (omega arith) ∙ ground arith

pub store_text-Holds : (c : Cells) (i : ℕ) (s : Bytes) → Holds (store_text c i s) i (s ++ (0 ∷ []))
unfolding store_text
store_text-Holds c i [] = byte (ground arith) nothing
store_text-Holds c i (x ∷ s) =
    byte (store_text-before (store_at c i x) (i + 1) s i (omega arith) ∙ ground arith)
      (store_text-Holds (store_at c i x) (i + 1) s)

pub bytes_from-Holds : {c : Cells} {i : ℕ} {s : Bytes} → Holds c i s → bytes_from c i (size s) ≡ s
unfolding bytes_from
bytes_from-Holds nothing = refl
bytes_from-Holds (byte e h) = rw (e, bytes_from-Holds h) refl

some_pair : {a b i j : ℕ} → a ≡ b → i ≡ j → ◌≡◌ {A = Option (ℕ × ℕ)} (some (a, i)) (some (b, j))
some_pair e f = cc

-- The loop sums a text up to its zero byte.
pub check_loop-Holds :
    {c : Cells} (n i check : ℕ) (s : Bytes)
    → IsText s
    → Holds c i (s ++ (0 ∷ []))
    → size s < n
    → check < 2 ^ 8
    → check_loop n c i check ≡ some (u8 (check + sum s), i + size s)
unfolding check_loop
check_loop-Holds zero i check s t h p q = absurd (omega arith)
check_loop-Holds {c} (suc n) i check [] t (byte e h) p q =
    let ends : (c i == 0) ≡ true = ground arith in
    let total : check ≡ u8 (check + 0) = omega arith in
    let last : i ≡ i + 0 = omega arith in rw (check_loop, ends) (some_pair total last)
check_loop-Holds {c} (suc n) i check (x ∷ s) (one_more pos small t) (byte e h) p q =
    let more : (c i == 0) ≡ false = ground arith in
    let total : u8 (u8 (check + x) + sum s) ≡ u8 (check + (x + sum s)) = omega arith in
    let last : i + 1 + size s ≡ i + suc (size s) = omega arith in
    rw (check_loop, more, e)
      (check_loop-Holds n (i + 1) (u8 (check + x)) s t h (omega arith) (omega arith)
        ∙ some_pair total last)

pub check_loop-sum :
    {c : Cells} (n i : ℕ) (s : Bytes)
    → IsText s
    → Holds c i (s ++ (0 ∷ []))
    → size s < n
    → check_loop n c i 0 ≡ some (u8 (sum s), i + size s)
check_loop-sum n i s t h p =
    check_loop-Holds n i 0 s t h p (omega arith) ∙ some_pair (omega arith) refl

pub IsText-append : {s t : Bytes} → IsText s → IsText t → IsText (s ++ t)
IsText-append none_left u = u
IsText-append (one_more p q t) u = one_more p q (IsText-append t u)

-- A text that is put behind the one that stands there.
pub store_text-append :
    {c : Cells} {i : ℕ} (s t : Bytes)
    → Holds c i s
    → Holds (store_text c (i + size s) t) i (s ++ (t ++ (0 ∷ [])))
store_text-append {c} {i} s t h =
    Holds-append (t ++ (0 ∷ [])) (Holds-agree h λ j p q. store_text-before c (i + size s) t j q)
      (store_text-Holds c (i + size s) t)
