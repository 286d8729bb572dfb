-- ===== src/Examples/Blocks.antt =====
-- Block transfers of two registers.
use projet_prog.Base.{ℕ, ◌≡◌, refl, arith, some}
use projet_prog.Memory.{Memory}
use projet_prog.LoadStore.Block.{not_listed, stm, ldm}
use projet_prog.LoadStore.Blocks.{loaded, ldm-loaded}
use projet_prog.LoadStore.Multiple.{StoredBlock, stm-StoredBlock}
use projet_prog.Examples.{x86, cpu, file, ram}

-- LDMIA r4, {r1, r2}.
abbrev ldmia : ℕ
ldmia = 0xE8940006

-- STMIA r0, {r1, r2}.
abbrev stmia : ℕ
stmia = 0xE8800006

ldm-loaded_example :
    ldm ldmia cpu
    ≡ some (0, record cpu { reg = loaded 15 0 (λ j. not_listed j ldmia) (ram.value 4) file })
ldm-loaded_example = ldm-loaded ldmia cpu (λ e. omega (arith, e)) refl (omega arith)

stm-StoredBlock_example :
    (mem : Memory) × (stm stmia cpu ≡ some (0, record cpu { mem = mem }))
    × StoredBlock stmia 0 file ram mem
stm-StoredBlock_example =
    stm-StoredBlock stmia cpu (λ e. omega (arith, e)) refl (omega arith) (omega arith)
