-- ===== src/Registers/Dwarf.antt =====
-- The DWARF numbers of the registers of src/registers.rs.
use nnd.Base.{
  ℕ, ◌+◌, ◌-◌, ◌<◌, ◌≡◌, refl, Bool, true, ltb, leb, ◌==◌, ◌&&◌, if◌then◌else◌, List, [], ◌∷◌,
  Option, none, some, arith, Bool-cases, inl, inr, leb→le,
}
use nnd.Registers.Extra.{Lookup, found, missing, asserted, vector, opmask_element, mxcsr}

pub data Arch : Type 0 where
  x86_64 aarch64 riscv64 : Arch

-- A match on numbers: the pairs of a number and its result, tried in order.
unfoldable pub number_case : ℕ → List (ℕ × ℕ) → Option ℕ
number_case n [] = none
number_case n ((k, r) ∷ cases) = let rest = number_case n cases in if n == k then some r else rest

abbrev x86_64_numbers : List (ℕ × ℕ)
x86_64_numbers = (49, 23) ∷ (51, 17) ∷ (52, 18) ∷ (54, 19) ∷ (55, 20) ∷ (58, 21) ∷ (59, 22) ∷ []

abbrev aarch64_numbers : List (ℕ × ℕ)
aarch64_numbers = (0, 0) ∷ (1, 26) ∷ (2, 1) ∷ (8, 6) ∷ (29, 6) ∷ (30, 26) ∷ (31, 7) ∷ (32, 16) ∷ []

abbrev riscv64_numbers : List (ℕ × ℕ)
riscv64_numbers =
    (1, 26)
    ∷ (2, 7)
    ∷ (8, 6)
    ∷ (10, 0)
    ∷ (11, 1)
    ∷ (12, 2)
    ∷ (13, 3)
    ∷ (14, 4)
    ∷ (15, 5)
    ∷ (16, 8)
    ∷ (17, 9)
    ∷ (32, 16)
    ∷ []

unfoldable pub from_dwarf_arch : Arch → ℕ → Option ℕ
unfolding number_case
from_dwarf_arch x86_64 n = if leb n 16 then some n else number_case n x86_64_numbers
from_dwarf_arch aarch64 n = number_case n aarch64_numbers
from_dwarf_arch riscv64 n = number_case n riscv64_numbers

-- `from_dwarf` of the extra registers.
unfoldable pub from_dwarf : ℕ → Lookup
unfolding vector opmask_element
from_dwarf n =
    if leb 17 n && leb n 32
    then asserted (vector (n - 17) 8)
    else if leb 67 n && leb n 82
    then asserted (vector (n - 67 + 16) 8)
    else if leb 118 n && leb n 125
    then asserted (opmask_element (n - 118))
    else if n == 64
    then found mxcsr
    else missing

abbrev Below27 : Option ℕ → Type 0
Below27 none = Unit
Below27 (some r) = r < 27

abbrev all_registers : List (ℕ × ℕ) → Bool
all_registers [] = true
all_registers (c ∷ cases) = ltb c.1 27 && all_registers cases

number_case-Below27 :
    (n : ℕ) (cases : List (ℕ × ℕ)) → all_registers cases ≡ true → Below27 (number_case n cases)
unfolding number_case
number_case-Below27 n [] h = tt
number_case-Below27 n ((k, r) ∷ cases) h =
    let a : r < 27 = ground (arith, h) in
    let b : all_registers cases ≡ true = ground (arith, h) in
    elim (Bool-cases (n == k)) [ inl q ↦ rw q a | inr q ↦ rw q (number_case-Below27 n cases b) ]

-- Every number of the DWARF tables that is known gives a register of a frame.
from_dwarf_arch-Below27 : (arch : Arch) (n : ℕ) → Below27 (from_dwarf_arch arch n)
unfolding from_dwarf_arch
from_dwarf_arch-Below27 x86_64 n = elim (Bool-cases (leb n 16)) [
  | inl q ↦ let h : n < 27 = omega (arith, leb→le n 16 q) in rw q h
  | inr q ↦ rw q (number_case-Below27 n x86_64_numbers refl)
]
from_dwarf_arch-Below27 aarch64 n = number_case-Below27 n aarch64_numbers refl
from_dwarf_arch-Below27 riscv64 n = number_case-Below27 n riscv64_numbers refl
