-- ===== src/Tests/Registers.antt =====
-- Runs of the registers of src/registers.rs, and the theorems at inputs that meet their hypotheses.
use nnd.Base.{◌≡◌, refl, true, false, some, none, arith, codes, [], ◌∷◌}
use nnd.Registers.{eq_ignore_ascii_case}
use nnd.Registers.Dwarf.{from_dwarf_arch, x86_64, riscv64}
use nnd.Registers.Extra
use nnd.Registers.Extra.{found, missing}
use nnd.Registers.ExtraNames.{is_ymm, reparsed, Lands, parse_ignore_case-IsRegister}
use nnd.Registers.Known.{get_option-set_register}
use nnd.Registers.Sets.{default, set_register, get_option}

-- The mark of a guess stays when a known value is set.
guessed_then_known :
    get_option (set_register (set_register default 7 1 true) 7 2 false) 7 ≡ some (2, true)
unfolding get_option set_register
guessed_then_known = refl

out_of_range_names : Extra.parse_ignore_case (codes "zmm32") ≡ missing
unfolding Extra.parse_ignore_case eq_ignore_ascii_case
out_of_range_names = refl

dwarf_numbers : from_dwarf_arch riscv64 32 ∷ from_dwarf_arch x86_64 50 ∷ [] ≡ some 16 ∷ none ∷ []
unfolding from_dwarf_arch
dwarf_numbers = refl

get_option-set_register_example :
    get_option (set_register default 7 0x7ffe true) 6 ≡ get_option default 6
get_option-set_register_example = get_option-set_register default 7 0x7ffe true 6 (omega arith)

parse_ignore_case-IsRegister_example :
    Lands (Extra.parse_ignore_case (codes "Ymm32"))
    × (reparsed (record { start = 24; len = 4 }) ≡ found (record { start = 24; len = 4 }))
parse_ignore_case-IsRegister_example =
    parse_ignore_case-IsRegister (codes "Ymm32") (record { start = 24; len = 4 })
      (is_ymm 3 (omega arith))
