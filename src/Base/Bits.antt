-- ===== src/Base/Bits.antt =====
-- The binary digits of natural numbers, and what setting and testing one does.
use Prim.Native.Nat.{
  ℕ, zero, suc, ◌+◌, ◌-◌, ◌*◌, ◌/◌, ◌%◌, ◌^◌, ◌≤◌, ◌<◌, min, max, bit_and, bit_or, digits, bitwise,
  bit_and-bitwise, bit_or-bitwise,
}
use nnd.Base.Tests.{◌==◌, if◌then◌else◌}
use mathlib.Core.Path.{◌≡◌, refl, subst, ap}
use native.Mathlib.Omega.{arith}

-- The digit at a place.
abbrev pub bit : ℕ → ℕ → ℕ
bit zero m = m % 2
bit (suc i) m = bit i (m / 2)

module _ (past : ℕ → ℕ) (op : ℕ → ℕ → ℕ) where
  -- More fuel than the first number gives the same, `k` bounding both.
  digits_enough : (k n a b : ℕ) → n ≤ k → a ≤ n → digits past op n a b ≡ bitwise past op a b
  digits_enough k zero zero b h l = refl
  digits_enough k zero (suc a) b h l = absurd (omega arith)
  digits_enough k (suc n) zero b h l = refl
  digits_enough zero (suc n) (suc a) b h l = absurd (omega arith)
  digits_enough (suc k) (suc n) (suc a) b h l =
      let q = suc a / 2 in
      omega (
        arith,
        digits_enough k n q (b / 2) (omega arith) (omega arith),
        digits_enough k a q (b / 2) (omega arith) (omega arith),
      )

  lowest :
      (a b : ℕ)
      → bitwise past op (suc a) b ≡ bitwise past op (suc a / 2) (b / 2) * 2 + op (suc a % 2) (b % 2)
  lowest a b = omega (arith, digits_enough a a (suc a / 2) (b / 2) (omega arith) (omega arith))

or_lowest : (a b : ℕ) → bit_or a b ≡ bit_or (a / 2) (b / 2) * 2 + max (a % 2) (b % 2)
or_lowest zero b = simp bit_or-bitwise (omega arith)
or_lowest (suc a) b = simp bit_or-bitwise (lowest (λ x. x) max a b)

and_lowest : (a b : ℕ) → bit_and a b ≡ bit_and (a / 2) (b / 2) * 2 + min (a % 2) (b % 2)
and_lowest zero b = simp bit_and-bitwise (omega arith)
and_lowest (suc a) b = simp bit_and-bitwise (lowest (λ x. 0) min a b)

and_zero : (k a : ℕ) → a ≤ k → bit_and a 0 ≡ 0
and_zero k zero h = simp bit_and-bitwise refl
and_zero zero (suc a) h = absurd (omega arith)
and_zero (suc k) (suc a) h =
    omega (arith, and_lowest (suc a) 0, and_zero k (suc a / 2) (omega arith))

times_two : (d x : ℕ) → d * (2 * x) ≡ d * x * 2
times_two d x = grind arith

pub bit_and-power : (i m : ℕ) → bit_and m (2 ^ i) ≡ bit i m * 2 ^ i
bit_and-power zero m = omega (arith, and_lowest m 1, and_zero (m / 2) (m / 2) (omega arith))
bit_and-power (suc i) m =
    let g : 2 ^ suc i ≡ 2 * 2 ^ i = omega arith in
    let e : bit i (m / 2) * 2 ^ suc i ≡ bit i (m / 2) * (2 * 2 ^ i) =
      ap (λ z. bit i (m / 2) * z) g in
    let h : 2 ^ suc i / 2 ≡ 2 ^ i = omega arith in
    let k = bit_and-power i (m / 2) in
    let l : bit_and m (2 ^ suc i) ≡ bit_and (m / 2) (2 ^ i) * 2 + min (m % 2) (2 ^ suc i % 2) =
      subst (λ z. bit_and m (2 ^ suc i) ≡ bit_and (m / 2) z * 2 + min (m % 2) (2 ^ suc i % 2)) h
        (and_lowest m (2 ^ suc i)) in
    omega (arith, e, k, l, times_two (bit i (m / 2)) (2 ^ i))

pub bit-bit_or : (i a b : ℕ) → bit i (bit_or a b) ≡ max (bit i a) (bit i b)
bit-bit_or zero a b = omega (arith, or_lowest a b)
bit-bit_or (suc i) a b =
    let h : bit_or a b / 2 ≡ bit_or (a / 2) (b / 2) = omega (arith, or_lowest a b) in
    rw h (bit-bit_or i (a / 2) (b / 2))

bit-zero : (i : ℕ) → bit i 0 ≡ 0
bit-zero zero = refl
bit-zero (suc i) = bit-zero i

pub bit-power : (i j : ℕ) → bit i (2 ^ j) ≡ (if i == j then 1 else 0)
bit-power zero zero = refl
bit-power zero (suc j) = ground arith
bit-power (suc i) zero = ground (arith, bit-zero i)
bit-power (suc i) (suc j) =
    let h : 2 ^ suc j / 2 ≡ 2 ^ j = omega arith in rw h (ground (arith, bit-power i j))

pub bit-small : (i m : ℕ) → bit i m ≤ 1
bit-small zero m = omega arith
bit-small (suc i) m = bit-small i (m / 2)

split_half : (a x p : ℕ) → (a + 2 * p * x) / 2 ≡ a / 2 + p * x
split_half a x p = let e : 2 * p * x ≡ 2 * (p * x) = grind arith in omega (arith, e)

split_rest : (a x p : ℕ) → (a + 2 * p * x) % 2 ≡ a % 2
split_rest a x p = let e : 2 * p * x ≡ 2 * (p * x) = grind arith in omega (arith, e)

-- The parts of a conjunction below and above a power of two.
pub bit_and_split :
    (k a c x y : ℕ)
    → a < 2 ^ k
    → c < 2 ^ k
    → bit_and (a + 2 ^ k * x) (c + 2 ^ k * y) ≡ bit_and a c + 2 ^ k * bit_and x y
bit_and_split zero a c x y h l =
    let ea : a ≡ 0 = omega (arith, h) in
    let ec : c ≡ 0 = omega (arith, l) in
    let m : 2 ^ 0 ≡ 1 = refl in
    let px : 0 + 1 * x ≡ x = omega arith in
    let py : 0 + 1 * y ≡ y = omega arith in
    let pz : 0 + 1 * bit_and x y ≡ bit_and x y = omega arith in rw (ea, ec, m, px, py, pz) refl
bit_and_split (suc k) a c x y h l =
    let p = 2 ^ k in
    let m : 2 ^ suc k ≡ 2 * p = omega arith in
    let hk = bit_and_split k (a / 2) (c / 2) x y (omega (arith, m, h)) (omega (arith, m, l)) in
    let e : 2 * p * bit_and x y ≡ 2 * (p * bit_and x y) = grind arith in
    let low : bit_and (a + 2 * p * x) (c + 2 * p * y)
        ≡ bit_and (a / 2 + p * x) (c / 2 + p * y) * 2 + min (a % 2) (c % 2) =
      rw (split_half a x p, split_half c y p, split_rest a x p, split_rest c y p) at
        (and_lowest (a + 2 * p * x) (c + 2 * p * y)) in
    rw m (omega (arith, low, hk, and_lowest a c, e))

pub zero_and : (b : ℕ) → bit_and 0 b ≡ 0
zero_and b = simp bit_and-bitwise refl

pub and_none : (a : ℕ) → bit_and a 0 ≡ 0
and_none a = and_zero a a (omega arith)

zero_or : (b : ℕ) → bit_or 0 b ≡ b
zero_or b = simp bit_or-bitwise refl

-- A disjunction of numbers below and above a power of two is their sum.
pub bit_or_disjoint : (k a x : ℕ) → a < 2 ^ k → bit_or a (2 ^ k * x) ≡ a + 2 ^ k * x
bit_or_disjoint zero a x h =
    let ea : a ≡ 0 = omega (arith, h) in
    let px : 1 * x ≡ x = omega arith in
    let m : 2 ^ 0 ≡ 1 = refl in rw (ea, m, px) (omega (arith, zero_or x))
bit_or_disjoint (suc k) a x h =
    let p = 2 ^ k in
    let m : 2 ^ suc k ≡ 2 * p = omega arith in
    let hk = bit_or_disjoint k (a / 2) x (omega (arith, m, h)) in
    let e : 2 * p * x ≡ 2 * (p * x) = grind arith in
    let q : 2 * p * x / 2 ≡ p * x = omega (arith, e) in
    let r : 2 * p * x % 2 ≡ 0 = omega (arith, e) in
    let low : bit_or a (2 * p * x) ≡ bit_or (a / 2) (p * x) * 2 + max (a % 2) 0 =
      rw (q, r) at (or_lowest a (2 * p * x)) in
    rw m (omega (arith, low, hk, e))

or_zero : (k a : ℕ) → a ≤ k → bit_or a 0 ≡ a
or_zero k zero h = zero_or 0
or_zero zero (suc a) h = absurd (omega arith)
or_zero (suc k) (suc a) h = omega (arith, or_lowest (suc a) 0, or_zero k (suc a / 2) (omega arith))

-- The parts of a disjunction below and above a power of two.
pub bit_or_split :
    (k a c x y : ℕ)
    → a < 2 ^ k
    → c < 2 ^ k
    → bit_or (a + 2 ^ k * x) (c + 2 ^ k * y) ≡ bit_or a c + 2 ^ k * bit_or x y
bit_or_split zero a c x y h l =
    let ea : a ≡ 0 = omega (arith, h) in
    let ec : c ≡ 0 = omega (arith, l) in
    let m : 2 ^ 0 ≡ 1 = refl in
    let px : 0 + 1 * x ≡ x = omega arith in
    let py : 0 + 1 * y ≡ y = omega arith in
    let pz : 0 + 1 * bit_or x y ≡ bit_or x y = omega arith in rw (ea, ec, m, px, py, pz) refl
bit_or_split (suc k) a c x y h l =
    let p = 2 ^ k in
    let m : 2 ^ suc k ≡ 2 * p = omega arith in
    let hk = bit_or_split k (a / 2) (c / 2) x y (omega (arith, m, h)) (omega (arith, m, l)) in
    let e : 2 * p * bit_or x y ≡ 2 * (p * bit_or x y) = grind arith in
    let low : bit_or (a + 2 * p * x) (c + 2 * p * y)
        ≡ bit_or (a / 2 + p * x) (c / 2 + p * y) * 2 + max (a % 2) (c % 2) =
      rw (split_half a x p, split_half c y p, split_rest a x p, split_rest c y p) at
        (or_lowest (a + 2 * p * x) (c + 2 * p * y)) in
    rw m (omega (arith, low, hk, or_lowest a c, e))

-- The same with the higher number in front.
pub bit_or_above : (k a x : ℕ) → a < 2 ^ k → bit_or (2 ^ k * x) a ≡ a + 2 ^ k * x
bit_or_above k a x h =
    let s = bit_or_split k 0 a x 0 (omega (arith, h)) h in
    let l : 0 + 2 ^ k * x ≡ 2 ^ k * x = omega arith in
    let z : a + 2 ^ k * 0 ≡ a = omega arith in
    let t : bit_or (2 ^ k * x) a ≡ bit_or 0 a + 2 ^ k * bit_or x 0 = rw (l, z) at s in
    rw (t, zero_or a, or_zero x x (omega arith)) refl

-- A number below a power of two, with all lower bits.
pub bit_and_ones : (k a : ℕ) → a < 2 ^ k → bit_and a (2 ^ k - 1) ≡ a
bit_and_ones zero a h = let ea : a ≡ 0 = omega (arith, h) in rw ea (zero_and (2 ^ 0 - 1))
bit_and_ones (suc k) a h =
    let m : 2 ^ suc k ≡ 2 * 2 ^ k = omega arith in
    let half : (2 ^ suc k - 1) / 2 ≡ 2 ^ k - 1 = omega (arith, m, h) in
    let odd : (2 ^ suc k - 1) % 2 ≡ 1 = omega (arith, m, h) in
    let low : bit_and a (2 ^ suc k - 1) ≡ bit_and (a / 2) (2 ^ k - 1) * 2 + min (a % 2) 1 =
      rw (half, odd) at (and_lowest a (2 ^ suc k - 1)) in
    omega (arith, low, bit_and_ones k (a / 2) (omega (arith, m, h)))

pub bit_or_ones : (k a : ℕ) → a < 2 ^ k → bit_or a (2 ^ k - 1) ≡ 2 ^ k - 1
bit_or_ones zero a h = let ea : a ≡ 0 = omega (arith, h) in rw ea (zero_or (2 ^ 0 - 1))
bit_or_ones (suc k) a h =
    let m : 2 ^ suc k ≡ 2 * 2 ^ k = omega arith in
    let half : (2 ^ suc k - 1) / 2 ≡ 2 ^ k - 1 = omega (arith, m, h) in
    let odd : (2 ^ suc k - 1) % 2 ≡ 1 = omega (arith, m, h) in
    let low : bit_or a (2 ^ suc k - 1) ≡ bit_or (a / 2) (2 ^ k - 1) * 2 + max (a % 2) 1 =
      rw (half, odd) at (or_lowest a (2 ^ suc k - 1)) in
    omega (arith, low, bit_or_ones k (a / 2) (omega (arith, m, h)), m, h)

pub or_none : (a : ℕ) → bit_or a 0 ≡ a
or_none a = or_zero a a (omega arith)
