-- ===== src/SliceReader/Gather.antt =====
-- How `read_leb128_or_zero` of src/dwarf.rs moves the eight groups of a chunk together.
use nnd.Base.{
  ℕ, ◌+◌, ◌-◌, ◌*◌, ◌/◌, ◌%◌, ◌^◌, ◌<◌, ◌≡◌, ap, ◌∙◌, [], ◌∷◌, Bytes, IsByte, All, arith, bit_and,
  bit_or, bit_or_above, bit_or_split, bit_and_split, bit_and_ones, and_none,
}
use nnd.SliceReader.{paired, gathered}
use nnd.SliceReader.Words.{le}
use nnd.SliceReader.Groups.{off, low, keeps}

-- Two groups, side by side in 16 bits.
pair :
    (a b x y : ℕ)
    → a < 128
    → b < 128
    → bit_or (2 ^ 7 * b + 2 ^ 16 * x) (a + 2 ^ 16 * y) ≡ a + 2 ^ 7 * b + 2 ^ 16 * bit_or x y
pair a b x y h k =
    bit_or_split 16 (2 ^ 7 * b) a x y (omega arith) (omega arith)
    ∙ ap (λ z. z + 2 ^ 16 * bit_or x y) (bit_or_above 7 a b h)

pairs :
    (a0 a1 a2 a3 a4 a5 a6 a7 : ℕ)
    → a0 < 128
    → a1 < 128
    → a2 < 128
    → a3 < 128
    → a4 < 128
    → a5 < 128
    → a6 < 128
    → a7 < 128
    → bit_or
        (2 ^ 7 * a1 + 2 ^ 16 * (2 ^ 7 * a3 + 2 ^ 16 * (2 ^ 7 * a5 + 2 ^ 16 * (2 ^ 7 * a7))))
        (a0 + 2 ^ 16 * (a2 + 2 ^ 16 * (a4 + 2 ^ 16 * a6)))
      ≡ a0
        + 2 ^ 7 * a1
        + 2 ^ 16 * (a2 + 2 ^ 7 * a3 + 2 ^ 16 * (a4 + 2 ^ 7 * a5 + 2 ^ 16 * (a6 + 2 ^ 7 * a7)))
pairs a0 a1 a2 a3 a4 a5 a6 a7 h0 h1 h2 h3 h4 h5 h6 h7 =
    let p6 = bit_or_above 7 a6 a7 h6 in
    let p4 = pair a4 a5 (2 ^ 7 * a7) a6 h4 h5 in
    let p2 = pair a2 a3 (2 ^ 7 * a5 + 2 ^ 16 * (2 ^ 7 * a7)) (a4 + 2 ^ 16 * a6) h2 h3 in
    let p0 =
      pair a0 a1 (2 ^ 7 * a3 + 2 ^ 16 * (2 ^ 7 * a5 + 2 ^ 16 * (2 ^ 7 * a7)))
        (a2 + 2 ^ 16 * (a4 + 2 ^ 16 * a6)) h0 h1 in
    p0
    ∙ ap (λ z. a0 + 2 ^ 7 * a1 + 2 ^ 16 * z)
        (p2
          ∙ ap (λ z. a2 + 2 ^ 7 * a3 + 2 ^ 16 * z) (p4 ∙ ap (λ z. a4 + 2 ^ 7 * a5 + 2 ^ 16 * z) p6))

-- A mask of one of the four 16-bit parts.
first_part : (g0 x : ℕ) → g0 < 2 ^ 16 → bit_and (g0 + 2 ^ 16 * x) 0xffff ≡ g0
first_part g0 x h =
    let s = bit_and_split 16 g0 0xffff x 0 h (omega arith) in
    omega (arith, s, bit_and_ones 16 g0 h, and_none x)

next_part : (g x m : ℕ) → g < 2 ^ 16 → bit_and (g + 2 ^ 16 * x) (2 ^ 16 * m) ≡ 2 ^ 16 * bit_and x m
next_part g x m h =
    let s = bit_and_split 16 g 0 x m h (omega arith) in
    let z : 0 + 2 ^ 16 * m ≡ 2 ^ 16 * m = omega arith in
    let t : bit_and (g + 2 ^ 16 * x) (2 ^ 16 * m) ≡ bit_and g 0 + 2 ^ 16 * bit_and x m =
      rw z at s in
    omega (arith, t, and_none g)

module _ (g0 g1 g2 g3 : ℕ) (h0 : g0 < 2 ^ 14) (h1 : g1 < 2 ^ 14) (h2 : g2 < 2 ^ 14)
    (h3 : g3 < 2 ^ 14) where
  abbrev x3 : ℕ
  x3 = g3 + 2 ^ 16 * 0

  abbrev x2 : ℕ
  x2 = g2 + 2 ^ 16 * x3

  abbrev x1 : ℕ
  x1 = g1 + 2 ^ 16 * x2

  abbrev x0 : ℕ
  x0 = g0 + 2 ^ 16 * x1

  part_0 : bit_and x0 0xffff ≡ g0
  part_0 = first_part g0 x1 (omega arith)

  part_1 : bit_and x0 0xffff0000 / 4 ≡ 2 ^ 14 * g1
  part_1 = omega (arith, next_part g0 x1 0xffff (omega arith), first_part g1 x2 (omega arith))

  part_2 : bit_and x0 0xffff00000000 / 16 ≡ 2 ^ 28 * g2
  part_2 = omega (
    arith,
    next_part g0 x1 0xffff0000 (omega arith),
    next_part g1 x2 0xffff (omega arith),
    first_part g2 x3 (omega arith),
  )

  part_3 : bit_and x0 0xffff000000000000 / 64 ≡ 2 ^ 42 * g3
  part_3 = omega (
    arith,
    next_part g0 x1 0xffff00000000 (omega arith),
    next_part g1 x2 0xffff0000 (omega arith),
    next_part g2 x3 0xffff (omega arith),
    first_part g3 0 (omega arith),
  )

  gathered_parts : gathered x0 ≡ g0 + 2 ^ 14 * g1 + 2 ^ 28 * g2 + 2 ^ 42 * g3
  unfolding gathered
  gathered_parts =
      let a = bit_or_above 42 (2 ^ 28 * g2) g3 (omega arith) in
      let b = bit_or_above 28 (2 ^ 14 * g1) (g2 + 2 ^ 14 * g3) (omega arith) in
      let c = bit_or_above 14 g0 (g1 + 2 ^ 14 * (g2 + 2 ^ 14 * g3)) (omega arith) in
      let eb : 2 ^ 28 * g2 + 2 ^ 42 * g3 ≡ 2 ^ 28 * (g2 + 2 ^ 14 * g3) = omega arith in
      let ec : 2 ^ 14 * g1 + 2 ^ 28 * (g2 + 2 ^ 14 * g3)
          ≡ 2 ^ 14 * (g1 + 2 ^ 14 * (g2 + 2 ^ 14 * g3)) =
        omega arith in
      rw (part_0, part_1, part_2, part_3, a, eb, b, ec, c) (omega arith)

module _ (b0 b1 b2 b3 b4 b5 b6 b7 : ℕ)
    (h : All IsByte (b0 ∷ b1 ∷ b2 ∷ b3 ∷ b4 ∷ b5 ∷ b6 ∷ b7 ∷ [])) where
  abbrev bytes : Bytes
  bytes = b0 ∷ b1 ∷ b2 ∷ b3 ∷ b4 ∷ b5 ∷ b6 ∷ b7 ∷ []

  -- The numbers of 14 bits that two groups are.
  abbrev g : ℕ → ℕ → ℕ
  g a b = a % 128 + 2 ^ 7 * (b % 128)

  odds :
      bit_and (le bytes) 0x7f007f007f007f00 / 2
      ≡ 2 ^ 7 * (b1 % 128)
        + 2 ^ 16
          * (2 ^ 7 * (b3 % 128) + 2 ^ 16 * (2 ^ 7 * (b5 % 128) + 2 ^ 16 * (2 ^ 7 * (b7 % 128))))
  odds =
      ap (λ z. z / 2) (keeps bytes (off ∷ low ∷ off ∷ low ∷ off ∷ low ∷ off ∷ low ∷ []) h)
      ∙ omega arith

  evens :
      bit_and (le bytes) 0x7f007f007f007f
      ≡ b0 % 128 + 2 ^ 16 * (b2 % 128 + 2 ^ 16 * (b4 % 128 + 2 ^ 16 * (b6 % 128)))
  evens = keeps bytes (low ∷ off ∷ low ∷ off ∷ low ∷ off ∷ low ∷ []) h ∙ omega arith

  paired_lem :
      paired (le bytes)
      ≡ g b0 b1 + 2 ^ 16 * (g b2 b3 + 2 ^ 16 * (g b4 b5 + 2 ^ 16 * (g b6 b7 + 2 ^ 16 * 0)))
  unfolding paired
  paired_lem =
      rw (odds, evens)
        (pairs (b0 % 128) (b1 % 128) (b2 % 128) (b3 % 128) (b4 % 128) (b5 % 128) (b6 % 128)
            (b7 % 128) (omega arith) (omega arith) (omega arith) (omega arith) (omega arith)
            (omega arith) (omega arith) (omega arith)
          ∙ omega arith)

  -- Eight groups of seven bits.
  pub gathered-paired :
      gathered (paired (le bytes))
      ≡ g b0 b1 + 2 ^ 14 * g b2 b3 + 2 ^ 28 * g b4 b5 + 2 ^ 42 * g b6 b7
  gathered-paired =
      ap gathered paired_lem
      ∙ gathered_parts (g b0 b1) (g b2 b3) (g b4 b5) (g b6 b7) (omega arith) (omega arith)
          (omega arith) (omega arith)

-- The lower bits of a number, by the shifted mask of all bits.
pub lower_bits : (k x y : ℕ) → x < 2 ^ k → bit_and (x + 2 ^ k * y) (2 ^ k - 1) ≡ x
lower_bits k x y h =
    let one : 0 < 2 ^ k = omega (arith, h) in
    let s = bit_and_split k x (2 ^ k - 1) y 0 h (omega (arith, one)) in
    let z : 2 ^ k - 1 + 2 ^ k * 0 ≡ 2 ^ k - 1 = omega arith in
    let t : bit_and (x + 2 ^ k * y) (2 ^ k - 1) ≡ bit_and x (2 ^ k - 1) + 2 ^ k * bit_and y 0 =
      rw z at s in
    let n : 2 ^ k * 0 ≡ 0 = omega arith in t ∙ rw (bit_and_ones k x h, and_none y, n) (omega arith)
