-- ===== src/SliceReader/Parts.antt =====
-- The branches of `read_leb128_or_zero` in src/dwarf.rs for up to five bytes, for unsigned numbers:
-- they agree with a decoder that goes byte by byte.
use nnd.Base.{
  ℕ, ◌+◌, ◌*◌, ◌/◌, ◌%◌, ◌^◌, ◌<◌, ◌≤◌, ◌≡◌, refl, ◌∙◌, true, false, ltb, ◌==◌, [], ◌∷◌, Option,
  none, some, Bytes, IsByte, All, arith, bit_and,
}
use nnd.SliceReader.{leb128_parts, usize_max}
use nnd.SliceReader.Words.{le}
use nnd.SliceReader.Uleb.{uleb128}
use nnd.SliceReader.Groups.{one_high, five_highs, low_0}
use nnd.SliceReader.Few.{few_bytes_two, few_bytes_three, few_bytes_four, few_bytes_five}

-- What the branches give for the bytes of the memory: the number of bytes and the value.
pub data Parts (bs : Bytes) : Option (ℕ × ℕ) → Type 0 where
  found : (c v : ℕ) → uleb128 10 bs ≡ some (c, v) → v < 2 ^ 64 → Parts bs (some (c, v))
  large :
      (c v res : ℕ) → uleb128 10 bs ≡ some (c, v) → 2 ^ 64 ≤ v → Parts bs (some (usize_max, res))
  endless : (res : ℕ) → uleb128 10 bs ≡ none → Parts bs (some (usize_max, res))

module _ (b0 b1 b2 b3 b4 b5 b6 b7 b8 b9 : ℕ) (rest : Bytes)
    (h : All IsByte (b0 ∷ b1 ∷ b2 ∷ b3 ∷ b4 ∷ b5 ∷ b6 ∷ b7 ∷ [])) (h8 : b8 < 256)
    (h9 : b9 < 256) where
  abbrev pub chunk : ℕ
  chunk = le (b0 ∷ b1 ∷ b2 ∷ b3 ∷ b4 ∷ b5 ∷ b6 ∷ b7 ∷ [])

  abbrev pub memory : Bytes
  memory = b0 ∷ b1 ∷ b2 ∷ b3 ∷ b4 ∷ b5 ∷ b6 ∷ b7 ∷ b8 ∷ b9 ∷ rest

  pub one_test : bit_and chunk 0x80 ≡ b0 / 128 * 128
  one_test = one_high b0 b1 b2 b3 b4 b5 b6 b7 h ∙ omega arith

  pub five_test :
      bit_and chunk 0x8080808080
      ≡ b0 / 128 * 128
        + 2 ^ 8 * (b1 / 128 * 128)
        + 2 ^ 16 * (b2 / 128 * 128)
        + 2 ^ 24 * (b3 / 128 * 128)
        + 2 ^ 32 * (b4 / 128 * 128)
  five_test = five_highs b0 b1 b2 b3 b4 b5 b6 b7 h ∙ omega arith

  pub one_byte : b0 < 128 → Parts memory (leb128_parts false chunk (b8 ∷ b9 ∷ rest))
  unfolding leb128_parts uleb128
  one_byte k =
      let t : (bit_and chunk 0x80 == 0) ≡ true = ground (arith, one_test) in
      let z : ltb b0 128 ≡ true = ground arith in
      let m : b0 % 128 ≡ b0 = omega arith in
      rw (t, low_0 b0 b1 b2 b3 b4 b5 b6 b7 h, m) (found 1 b0 (rw z refl) (omega arith))

  pub two_bytes : 128 ≤ b0 → b1 < 128 → Parts memory (leb128_parts false chunk (b8 ∷ b9 ∷ rest))
  unfolding leb128_parts uleb128
  two_bytes k0 k1 =
      let t : (bit_and chunk 0x80 == 0) ≡ false = ground (arith, one_test) in
      let u : (bit_and chunk 0x8080808080 == 0x8080808080) ≡ false = ground (arith, five_test) in
      let z0 : ltb b0 128 ≡ false = ground arith in
      let z1 : ltb b1 128 ≡ true = ground arith in
      let v = b0 % 128 + 128 * b1 in
      let e : b0 % 128 + 2 ^ 7 * (b1 % 128) ≡ v = omega arith in
      rw (t, u, few_bytes_two b0 b1 b2 b3 b4 b5 b6 b7 h k1, e)
        (found 2 v (rw (z0, z1) refl) (omega arith))

  pub three_bytes :
      128 ≤ b0 → 128 ≤ b1 → b2 < 128 → Parts memory (leb128_parts false chunk (b8 ∷ b9 ∷ rest))
  unfolding leb128_parts uleb128
  three_bytes k0 k1 k2 =
      let t : (bit_and chunk 0x80 == 0) ≡ false = ground (arith, one_test) in
      let u : (bit_and chunk 0x8080808080 == 0x8080808080) ≡ false = ground (arith, five_test) in
      let z0 : ltb b0 128 ≡ false = ground arith in
      let z1 : ltb b1 128 ≡ false = ground arith in
      let z2 : ltb b2 128 ≡ true = ground arith in
      let v = b0 % 128 + 128 * (b1 % 128 + 128 * b2) in
      let e : b0 % 128 + 2 ^ 7 * (b1 % 128) + 2 ^ 14 * (b2 % 128) ≡ v = omega arith in
      rw (t, u, few_bytes_three b0 b1 b2 b3 b4 b5 b6 b7 h k1 k2, e)
        (found 3 v (rw (z0, z1, z2) refl) (omega arith))

  pub four_bytes :
      128 ≤ b0
      → 128 ≤ b1
      → 128 ≤ b2
      → b3 < 128
      → Parts memory (leb128_parts false chunk (b8 ∷ b9 ∷ rest))
  unfolding leb128_parts uleb128
  four_bytes k0 k1 k2 k3 =
      let t : (bit_and chunk 0x80 == 0) ≡ false = ground (arith, one_test) in
      let u : (bit_and chunk 0x8080808080 == 0x8080808080) ≡ false = ground (arith, five_test) in
      let z0 : ltb b0 128 ≡ false = ground arith in
      let z1 : ltb b1 128 ≡ false = ground arith in
      let z2 : ltb b2 128 ≡ false = ground arith in
      let z3 : ltb b3 128 ≡ true = ground arith in
      let v = b0 % 128 + 128 * (b1 % 128 + 128 * (b2 % 128 + 128 * b3)) in
      let e : b0 % 128 + 2 ^ 7 * (b1 % 128) + 2 ^ 14 * (b2 % 128) + 2 ^ 21 * (b3 % 128) ≡ v =
        omega arith in
      rw (t, u, few_bytes_four b0 b1 b2 b3 b4 b5 b6 b7 h k1 k2 k3, e)
        (found 4 v (rw (z0, z1, z2, z3) refl) (omega arith))

  pub five_bytes :
      128 ≤ b0
      → 128 ≤ b1
      → 128 ≤ b2
      → 128 ≤ b3
      → b4 < 128
      → Parts memory (leb128_parts false chunk (b8 ∷ b9 ∷ rest))
  unfolding leb128_parts uleb128
  five_bytes k0 k1 k2 k3 k4 =
      let t : (bit_and chunk 0x80 == 0) ≡ false = ground (arith, one_test) in
      let u : (bit_and chunk 0x8080808080 == 0x8080808080) ≡ false = ground (arith, five_test) in
      let z0 : ltb b0 128 ≡ false = ground arith in
      let z1 : ltb b1 128 ≡ false = ground arith in
      let z2 : ltb b2 128 ≡ false = ground arith in
      let z3 : ltb b3 128 ≡ false = ground arith in
      let z4 : ltb b4 128 ≡ true = ground arith in
      let v = b0 % 128 + 128 * (b1 % 128 + 128 * (b2 % 128 + 128 * (b3 % 128 + 128 * b4))) in
      let e : b0 % 128
            + 2 ^ 7 * (b1 % 128)
            + 2 ^ 14 * (b2 % 128)
            + 2 ^ 21 * (b3 % 128)
            + 2 ^ 28 * (b4 % 128)
          ≡ v =
        omega arith in
      rw (t, u, few_bytes_five b0 b1 b2 b3 b4 b5 b6 b7 h k1 k2 k3, e)
        (found 5 v (rw (z0, z1, z2, z3, z4) refl) (omega arith))
