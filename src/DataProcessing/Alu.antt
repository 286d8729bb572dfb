-- ===== src/DataProcessing/Alu.antt =====
-- arm_data_processing.c: the flag update and the sixteen operations. Each reads its registers,
-- updates the cpsr and returns the value for the destination register.
use projet_prog.Base.{
  ℕ, ◌+◌, ◌^◌, ◌>>>◌, ◌<<<◌, bit_and, bit_or, bit_xor, add32, sub32, not32, ltb, leb, ◌==◌, ◌&&◌,
  if◌then◌else◌, as_int,
}
use projet_prog.Core.{
  M, pure, ◌>>=◌, ◌>>◌, arm_read_register, arm_read_cpsr, arm_read_spsr, arm_write_cpsr,
  arm_current_mode_has_spsr,
}

-- (uint8_t) -1, which asks `update_cpsr` not to set the flag V
abbrev pub no_v : ℕ
no_v = 255

-- new_cpsr of UpdateCpsr
unfoldable pub new_cpsr : (cpsr c n z v : ℕ) → ℕ
new_cpsr cpsr c n z v =
    let kept =
      bit_or (bit_or (bit_or (bit_and cpsr 0x0FFFFFFF) (c <<< 29)) (n <<< 31)) (z <<< 30) in
    if v == 255 then kept else bit_or kept (v <<< 28)

unfoldable pub update_cpsr : (dest s rd c v : ℕ) → M (Unit {0})
update_cpsr dest s rd c v =
    let n = bit_and (dest >>> 31) 1 in
    let z = as_int (dest == 0) in
    if (s == 1) && (rd == 15)
    then (do
      has ← arm_current_mode_has_spsr
      if has == 0 then pure tt else do spsr ← arm_read_spsr; arm_write_cpsr spsr)
    else if s == 1
    then (do cpsr ← arm_read_cpsr; arm_write_cpsr (new_cpsr cpsr c n z v))
    else pure tt

-- get_bit(a + b, 32), in 64 bits
unfoldable pub carry_from_add : ℕ → ℕ → ℕ
carry_from_add a b = bit_and ((a + b) >>> 32) 1

-- The result of __builtin_add_overflow and __builtin_sub_overflow on uint32_t operands: whether the
-- exact result leaves the range of a uint32_t.
abbrev pub add_overflow : ℕ → ℕ → ℕ
add_overflow a b = as_int (leb (2 ^ 32) (a + b))

abbrev pub sub_overflow : ℕ → ℕ → ℕ
sub_overflow a b = as_int (ltb a b)

unfoldable pub and : (s rn rd op2 carry_out : ℕ) → M ℕ
and s rn rd op2 carry_out = do
  src ← arm_read_register rn
  dest ← arm_read_register rd
  update_cpsr dest s rd carry_out no_v
  pure (bit_and src op2)

unfoldable pub eor : (s rn rd op2 carry_out : ℕ) → M ℕ
eor s rn rd op2 carry_out = do
  src ← arm_read_register rn
  dest ← arm_read_register rd
  update_cpsr dest s rd carry_out no_v
  pure (bit_xor src op2)

unfoldable pub sub : (s rn rd op2 carry_out : ℕ) → M ℕ
sub s rn rd op2 carry_out = do
  src ← arm_read_register rn
  _ ← arm_read_register rd
  let c = if ltb src op2 then 0 else 1
  let v = sub_overflow src op2
  let dest = sub32 src op2
  update_cpsr dest s rd c v
  pure dest

unfoldable pub rsb : (s rn rd op2 carry_out : ℕ) → M ℕ
rsb s rn rd op2 carry_out = do
  src ← arm_read_register rn
  _ ← arm_read_register rd
  let c = if ltb op2 src then 0 else 1
  let v = sub_overflow op2 src
  let dest = sub32 op2 src
  update_cpsr dest s rd c v
  pure dest

unfoldable pub add : (s rn rd op2 carry_out : ℕ) → M ℕ
add s rn rd op2 carry_out = do
  src ← arm_read_register rn
  _ ← arm_read_register rd
  let c = carry_from_add src op2
  let v = add_overflow src op2
  let dest = add32 src op2
  update_cpsr dest s rd c v
  pure dest

unfoldable pub adc : (s rn rd op2 carry_out : ℕ) → M ℕ
adc s rn rd op2 carry_out = do
  src ← arm_read_register rn
  _ ← arm_read_register rd
  cpsr ← arm_read_cpsr
  let carry = bit_and (cpsr >>> 29) 1
  let c = carry_from_add src (add32 op2 carry)
  let v = add_overflow src (add32 op2 carry)
  update_cpsr (add32 src (add32 op2 carry)) s rd c v
  pure (add32 (add32 src op2) carry)

-- `~not_carry` is the complement of an int, converted to uint32_t by the subtraction.
unfoldable pub sbc : (s rn rd op2 carry_out : ℕ) → M ℕ
sbc s rn rd op2 carry_out = do
  src ← arm_read_register rn
  _ ← arm_read_register rd
  cpsr ← arm_read_cpsr
  let not_carry = bit_and (not32 (bit_and (cpsr >>> 29) 1)) 1
  let c = if ltb src (sub32 op2 not_carry) then 0 else 1
  let subtrahend = sub32 op2 (not32 not_carry)
  let v = sub_overflow src subtrahend
  update_cpsr (sub32 src subtrahend) s rd c v
  pure (sub32 (sub32 src op2) not_carry)

unfoldable pub rsc : (s rn rd op2 carry_out : ℕ) → M ℕ
rsc s rn rd op2 carry_out = do
  src ← arm_read_register rn
  _ ← arm_read_register rd
  cpsr ← arm_read_cpsr
  let not_carry = bit_and (not32 (bit_and (cpsr >>> 29) 1)) 1
  let c = if ltb op2 (sub32 src not_carry) then 0 else 1
  let subtrahend = sub32 src (not32 not_carry)
  let v = sub_overflow op2 subtrahend
  update_cpsr (sub32 op2 subtrahend) s rd c v
  pure (sub32 (sub32 op2 src) not_carry)

unfoldable pub tst : (s rn rd op2 carry_out : ℕ) → M (Unit {0})
tst s rn rd op2 carry_out = do
  src ← arm_read_register rn
  update_cpsr (bit_and src op2) 1 0 carry_out no_v

unfoldable pub teq : (s rn rd op2 carry_out : ℕ) → M (Unit {0})
teq s rn rd op2 carry_out = do
  src ← arm_read_register rn
  update_cpsr (bit_xor src op2) 1 0 carry_out no_v

unfoldable pub cmp : (s rn rd op2 carry_out : ℕ) → M (Unit {0})
cmp s rn rd op2 carry_out = do
  src ← arm_read_register rn
  let c = if ltb src op2 then 0 else 1
  let v = sub_overflow src op2
  update_cpsr (sub32 src op2) 1 0 c v

unfoldable pub cmn : (s rn rd op2 carry_out : ℕ) → M (Unit {0})
cmn s rn rd op2 carry_out = do
  src ← arm_read_register rn
  let c = carry_from_add src op2
  let v = add_overflow src op2
  update_cpsr (add32 src op2) 1 0 c v

unfoldable pub orr : (s rn rd op2 carry_out : ℕ) → M ℕ
orr s rn rd op2 carry_out = do
  src ← arm_read_register rn
  _ ← arm_read_register rd
  let dest = bit_or src op2
  update_cpsr dest s rd carry_out no_v
  pure dest

unfoldable pub mov : (s rn rd op2 carry_out : ℕ) → M ℕ
mov s rn rd op2 carry_out = do
  _ ← arm_read_register rd
  update_cpsr op2 s rd carry_out no_v
  pure op2

unfoldable pub bic : (s rn rd op2 carry_out : ℕ) → M ℕ
bic s rn rd op2 carry_out = do
  src ← arm_read_register rn
  _ ← arm_read_register rd
  let dest = bit_and src (not32 op2)
  update_cpsr dest s rd carry_out no_v
  pure dest

unfoldable pub mvn : (s rn rd op2 carry_out : ℕ) → M ℕ
mvn s rn rd op2 carry_out = do
  _ ← arm_read_register rd
  let dest = not32 op2
  update_cpsr dest s rd carry_out no_v
  pure dest
