-- ===== src/Registers.antt =====
-- registers.c and the constants of registers.h and arm_constants.h that it uses: an array of
-- eighteen 32-bit registers. Index 15 is the pc, 16 the cpsr, 17 the (unused) spsr.
-- The array pointer is the result of a successful `registers_create`, so it is never NULL; `none`
-- is an access outside the array.
use projet_prog.Base.{
  ℕ, zero, suc, ◌+◌, ◌<◌, ◌≡◌, arith, bit_and, minus_one, Option, none, some, ltb, ◌==◌, ◌||◌,
  if◌then◌else◌,
}

abbrev pub nb_register : ℕ
nb_register = 18

-- ~CPSR_Reserved_Mask
abbrev pub cpsr_mask : ℕ
cpsr_mask = 0xFF0F03FF

abbrev pub usr : ℕ
usr = 0x10

abbrev pub svc : ℕ
svc = 0x13

abbrev pub sys : ℕ
sys = 0x1F

-- r[i].value for each i
abbrev pub Registers : Type 0
Registers = ℕ → ℕ

abbrev pub assign : Registers → ℕ → ℕ → Registers
assign r i v = λ j. if j == i then v else r j

-- for (i ...; n rounds) r[i].value = 0, over what malloc returned
clear_loop : ℕ → ℕ → Registers → Registers
clear_loop zero i r = r
clear_loop (suc n) i r = clear_loop n (i + 1) (assign r i 0)

unfoldable pub registers_create : (contents : Registers) → Registers
unfolding clear_loop
registers_create contents = clear_loop nb_register 0 contents

unfoldable pub registers_get_mode : Registers → ℕ
registers_get_mode r = svc

unfoldable pub registers_mode_has_spsr : Registers → ℕ → ℕ
registers_mode_has_spsr r mode = if (mode == usr) || (mode == sys) then 0 else 1

unfoldable pub registers_current_mode_has_spsr : Registers → ℕ
unfolding registers_mode_has_spsr registers_get_mode
registers_current_mode_has_spsr r = registers_mode_has_spsr r (registers_get_mode r)

unfoldable pub registers_in_a_privileged_mode : Registers → ℕ
registers_in_a_privileged_mode r = if bit_and (r 16) 0xF == 0 then minus_one else 1

unfoldable pub registers_read : Registers → ℕ → ℕ → Option ℕ
registers_read r reg mode = if ltb reg nb_register then some (r reg) else none

unfoldable pub registers_read_cpsr : Registers → ℕ
registers_read_cpsr r = bit_and (r 16) cpsr_mask

unfoldable pub registers_read_spsr : Registers → ℕ → ℕ
registers_read_spsr r mode = minus_one

unfoldable pub registers_write : Registers → ℕ → ℕ → ℕ → Option Registers
registers_write r reg mode value = if ltb reg nb_register then some (assign r reg value) else none

unfoldable pub registers_write_cpsr : Registers → ℕ → Registers
registers_write_cpsr r value = assign r 16 (bit_and value cpsr_mask)

unfoldable pub registers_write_spsr : Registers → ℕ → ℕ → Registers
registers_write_spsr r mode value = r

-- After the loop the cells that it went through are zero.
clear_loop-zero :
    (n i : ℕ) (r : Registers) (j : ℕ)
    → ((k : ℕ) → k < i → r k ≡ 0)
    → j < i + n
    → clear_loop n i r j ≡ 0
unfolding clear_loop
clear_loop-zero zero i r j before p = before j (omega arith)
clear_loop-zero (suc n) i r j before p =
    clear_loop-zero n (i + 1) (assign r i 0) j (λ k q. ground (arith, before k)) (omega arith)

-- A new register file is all zero, whatever the allocated memory held.
pub registers_create-zero :
    (contents : Registers) (j : ℕ) → j < nb_register → registers_create contents j ≡ 0
unfolding registers_create
registers_create-zero contents j p =
    clear_loop-zero nb_register 0 contents j (λ k q. elim q [ ]) (omega arith)
