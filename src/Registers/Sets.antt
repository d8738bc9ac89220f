-- ===== src/Registers/Sets.antt =====
-- `Registers` of src/registers.rs: the values of the registers of a frame, and which are known. A
-- register is its number, below `count`.
use nnd.Base.{
  ℕ, ◌^◌, Bool, not, ◌==◌, if◌then◌else◌, List, [], ◌∷◌, Option, none, some, bit_and, bit_or,
  get_or, set,
}

abbrev pub count : ℕ
count = 27

pub record Registers : Type 0 where
  pub ints : List ℕ
  pub mask : ℕ
  pub dubious_mask : ℕ

-- The derived default: nothing is known.
abbrev pub default : Registers
default = record {
  ints =
      0 ∷ 0 ∷ 0 ∷ 0 ∷ 0 ∷ 0 ∷ 0 ∷ 0 ∷ 0 ∷ 0 ∷ 0 ∷ 0 ∷ 0 ∷ 0 ∷ 0 ∷ 0 ∷ 0 ∷ 0 ∷ 0 ∷ 0 ∷ 0 ∷ 0 ∷ 0 ∷ 0
      ∷ 0 ∷ 0 ∷ 0 ∷ [];
  mask = 0;
  dubious_mask = 0;
}

-- `set`; the shifts stay below 64 bits for a register.
unfoldable pub set_register : Registers → ℕ → ℕ → Bool → Registers
set_register r reg val dubious = record {
  ints = set r.ints reg val;
  mask = bit_or r.mask (2 ^ reg);
  dubious_mask = if dubious then bit_or r.dubious_mask (2 ^ reg) else r.dubious_mask;
}

unfoldable pub has : Registers → ℕ → Bool
has r reg = not (bit_and r.mask (2 ^ reg) == 0)

unfoldable pub is_dubious : Registers → ℕ → Bool
is_dubious r reg = not (bit_and r.dubious_mask (2 ^ reg) == 0)

-- The value, and whether it is dubious.
unfoldable pub get_option : Registers → ℕ → Option (ℕ × Bool)
unfolding is_dubious
get_option r reg =
    if bit_and r.mask (2 ^ reg) == 0 then none else some (get_or r.ints reg 0, is_dubious r reg)
