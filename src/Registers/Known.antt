-- ===== src/Registers/Known.antt =====
-- What src/registers.rs knows of the registers of a frame after one is set.
use nnd.Base.{
  ℕ, zero, suc, ◌*◌, ◌^◌, ◌≤◌, ◌<◌, ◌≡◌, refl, ap, Bool, true, false, ◌||◌, ◌==◌, if◌then◌else◌,
  List, [], ◌∷◌, some, ◌⊎◌, inl, inr, arith, length, bit_and, bit_or, bit, bit_and-power,
  bit-bit_or, bit-power, bit-small, get_or, set, Bool-cases, ==_iff,
}
use nnd.Registers.Sets.{Registers, set_register, is_dubious, get_option}

power_positive : (i : ℕ) → 1 ≤ 2 ^ i
power_positive zero = omega arith
power_positive (suc i) = omega (arith, power_positive i)

-- The bit test of the code against the digit.
tested : (m i : ℕ) → (bit_and m (2 ^ i) == 0) ≡ (bit i m == 0)
tested m i = elim (two (bit i m) (bit-small i m)) [
  | inl e ↦ ground (arith, bit_and-power i m, e, ap (λ d. d * 2 ^ i) e)
  | inr e ↦ ground (arith, bit_and-power i m, e, ap (λ d. d * 2 ^ i) e, power_positive i)
]
  where
    two : (d : ℕ) → d ≤ 1 → (d ≡ 0) ⊎ (d ≡ 1)
    two zero h = inl refl
    two (suc zero) h = inr refl
    two (suc (suc d)) h = absurd (omega arith)

-- Setting a bit makes it known and leaves every other bit.
tested-set :
    (m i j : ℕ)
    → (bit_and (bit_or m (2 ^ i)) (2 ^ j) == 0)
      ≡ (if j == i then false else (bit_and m (2 ^ j) == 0))
tested-set m i j =
    rw (tested (bit_or m (2 ^ i)) j, tested m j, bit-bit_or j m (2 ^ i), bit-power j i)
      (ground (arith, bit-small j m))

get_or-set :
    (xs : List ℕ) (i v j : ℕ)
    → i < length xs
    → get_or (set xs i v) j 0 ≡ (if j == i then v else get_or xs j 0)
get_or-set [] i v j h = absurd (omega arith)
get_or-set (x ∷ xs) zero v zero h = refl
get_or-set (x ∷ xs) zero v (suc j) h = ground arith
get_or-set (x ∷ xs) (suc i) v zero h = ground arith
get_or-set (x ∷ xs) (suc i) v (suc j) h = ground (arith, get_or-set xs i v j)

-- Whether a register is dubious once one was set: a mark is never taken back.
is_dubious-set_register :
    (r : Registers) (reg val : ℕ) (dubious : Bool) (other : ℕ)
    → is_dubious (set_register r reg val dubious) other
      ≡ (if other == reg then dubious || is_dubious r other else is_dubious r other)
unfolding is_dubious set_register
is_dubious-set_register r reg val true other =
    rw (tested-set r.dubious_mask reg other) (ground arith)
is_dubious-set_register r reg val false other = ground arith

-- For a register that the array has: it has the value given, and is dubious if said so or marked
-- before; every other register reads as before.
pub get_option-set_register :
    (r : Registers) (reg val : ℕ) (dubious : Bool) (other : ℕ)
    → reg < length r.ints
    → get_option (set_register r reg val dubious) other
      ≡ (if other == reg then some (val, dubious || is_dubious r reg) else get_option r other)
unfolding get_option set_register
get_option-set_register r reg val dubious other h =
    rw
      (
        tested-set r.mask reg other,
        get_or-set r.ints reg val other h,
        is_dubious-set_register r reg val dubious other,
      )
      (elim (Bool-cases (other == reg)) [
        | inl q ↦ rw q (ap (λ x. some (val, dubious || is_dubious r x)) ((==_iff other reg).0 q))
        | inr q ↦ rw q refl
      ])
