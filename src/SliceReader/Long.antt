-- ===== src/SliceReader/Long.antt =====
-- The branches of `read_leb128_or_zero` in src/dwarf.rs for six bytes and more, for unsigned
-- numbers: they agree with a decoder that goes byte by byte.
use nnd.Base.{
  ℕ, ◌+◌, ◌*◌, ◌/◌, ◌%◌, ◌^◌, ◌<◌, ◌≤◌, ◌≡◌, refl, ◌∙◌, true, false, ltb, ◌==◌, [], ◌∷◌, none, some,
  Bytes, IsByte, All, arith, bit_and, dec_lt,
}
use nnd.SliceReader.{leb128_parts, usize_max, gathered, paired, many_bytes, leb128_bytes}
use nnd.SliceReader.Words.{le}
use nnd.SliceReader.Uleb.{uleb128}
use nnd.SliceReader.Stops.{before_stop, leb128_bytes-before_stop}
use nnd.SliceReader.Groups.{eight_highs}
use nnd.SliceReader.Gather.{gathered-paired, lower_bits}
use nnd.SliceReader.Many.{many_bytes_nine, many_bytes_ten, many_bytes_over}
use nnd.SliceReader.Parts.{Parts, found, large, endless, one_test, five_test}

-- The same for a pair that is too long for any section.
large_pair :
    (bs : Bytes) (q : ℕ × ℕ)
    → q.0 ≡ usize_max
    → (c v : ℕ) → uleb128 10 bs ≡ some (c, v)
    → 2 ^ 64 ≤ v
    → Parts bs (some q)
large_pair bs (n, res) e c v u l = rw e (large c v res u l)

endless_pair : (bs : Bytes) (q : ℕ × ℕ) → q.0 ≡ usize_max → uleb128 10 bs ≡ none → Parts bs (some q)
endless_pair bs (n, res) e u = rw e (endless res u)

module _ (b0 b1 b2 b3 b4 b5 b6 b7 b8 b9 : ℕ) (rest : Bytes)
    (h : All IsByte (b0 ∷ b1 ∷ b2 ∷ b3 ∷ b4 ∷ b5 ∷ b6 ∷ b7 ∷ [])) (h8 : b8 < 256)
    (h9 : b9 < 256) where
  abbrev bytes : Bytes
  bytes = b0 ∷ b1 ∷ b2 ∷ b3 ∷ b4 ∷ b5 ∷ b6 ∷ b7 ∷ []

  abbrev word : ℕ
  word = le bytes

  abbrev all : Bytes
  all = b0 ∷ b1 ∷ b2 ∷ b3 ∷ b4 ∷ b5 ∷ b6 ∷ b7 ∷ b8 ∷ b9 ∷ rest

  abbrev Agrees : Type 0
  Agrees = Parts all (leb128_parts false word (b8 ∷ b9 ∷ rest))

  one_high_bit : bit_and word 0x80 ≡ b0 / 128 * 128
  one_high_bit = one_test b0 b1 b2 b3 b4 b5 b6 b7 b8 b9 rest h h8 h9

  five_high_bits :
      bit_and word 0x8080808080
      ≡ b0 / 128 * 128
        + 2 ^ 8 * (b1 / 128 * 128)
        + 2 ^ 16 * (b2 / 128 * 128)
        + 2 ^ 24 * (b3 / 128 * 128)
        + 2 ^ 32 * (b4 / 128 * 128)
  five_high_bits = five_test b0 b1 b2 b3 b4 b5 b6 b7 b8 b9 rest h h8 h9

  eight_high_bits :
      bit_and word 0x8080808080808080
      ≡ b0 / 128 * 128
        + 2 ^ 8 * (b1 / 128 * 128)
        + 2 ^ 16 * (b2 / 128 * 128)
        + 2 ^ 24 * (b3 / 128 * 128)
        + 2 ^ 32 * (b4 / 128 * 128)
        + 2 ^ 40 * (b5 / 128 * 128)
        + 2 ^ 48 * (b6 / 128 * 128)
        + 2 ^ 56 * (b7 / 128 * 128)
  eight_high_bits = eight_highs b0 b1 b2 b3 b4 b5 b6 b7 h ∙ omega arith

  counted : leb128_bytes word ≡ before_stop bytes + 1
  counted = leb128_bytes-before_stop bytes h refl refl

  groups :
      gathered (paired word)
      ≡ b0 % 128
        + 2 ^ 7 * (b1 % 128)
        + 2 ^ 14 * (b2 % 128)
        + 2 ^ 21 * (b3 % 128)
        + 2 ^ 28 * (b4 % 128)
        + 2 ^ 35 * (b5 % 128)
        + 2 ^ 42 * (b6 % 128)
        + 2 ^ 49 * (b7 % 128)
  groups = gathered-paired b0 b1 b2 b3 b4 b5 b6 b7 h ∙ omega arith

  pub six_bytes : 128 ≤ b0 → 128 ≤ b1 → 128 ≤ b2 → 128 ≤ b3 → 128 ≤ b4 → b5 < 128 → Agrees
  unfolding leb128_parts uleb128 before_stop
  six_bytes k0 k1 k2 k3 k4 k5 =
      let t : (bit_and word 0x80 == 0) ≡ false = ground (arith, one_high_bit) in
      let u : (bit_and word 0x8080808080 == 0x8080808080) ≡ true = ground (arith, five_high_bits) in
      let w : (bit_and word 0x8080808080808080 == 0x8080808080808080) ≡ false =
        ground (arith, eight_high_bits) in
      let z0 : ltb b0 128 ≡ false = ground arith in
      let z1 : ltb b1 128 ≡ false = ground arith in
      let z2 : ltb b2 128 ≡ false = ground arith in
      let z3 : ltb b3 128 ≡ false = ground arith in
      let z4 : ltb b4 128 ≡ false = ground arith in
      let z5 : ltb b5 128 ≡ true = ground arith in
      let n : leb128_bytes word ≡ 6 = counted ∙ rw (z0, z1, z2, z3, z4, z5) refl in
      let v =
        b0 % 128
        + 128 * (b1 % 128 + 128 * (b2 % 128 + 128 * (b3 % 128 + 128 * (b4 % 128 + 128 * b5)))) in
      let e : gathered (paired word) ≡ v + 2 ^ 42 * (b6 % 128 + 2 ^ 7 * (b7 % 128)) =
        groups ∙ omega arith in
      let l = lower_bits 42 v (b6 % 128 + 2 ^ 7 * (b7 % 128)) (omega arith) in
      rw (t, u, w, n, e, l) (found 6 v (rw (z0, z1, z2, z3, z4, z5) refl) (omega arith))

  pub seven_bytes :
      128 ≤ b0 → 128 ≤ b1 → 128 ≤ b2 → 128 ≤ b3 → 128 ≤ b4 → 128 ≤ b5 → b6 < 128 → Agrees
  unfolding leb128_parts uleb128 before_stop
  seven_bytes k0 k1 k2 k3 k4 k5 k6 =
      let t : (bit_and word 0x80 == 0) ≡ false = ground (arith, one_high_bit) in
      let u : (bit_and word 0x8080808080 == 0x8080808080) ≡ true = ground (arith, five_high_bits) in
      let w : (bit_and word 0x8080808080808080 == 0x8080808080808080) ≡ false =
        ground (arith, eight_high_bits) in
      let z0 : ltb b0 128 ≡ false = ground arith in
      let z1 : ltb b1 128 ≡ false = ground arith in
      let z2 : ltb b2 128 ≡ false = ground arith in
      let z3 : ltb b3 128 ≡ false = ground arith in
      let z4 : ltb b4 128 ≡ false = ground arith in
      let z5 : ltb b5 128 ≡ false = ground arith in
      let z6 : ltb b6 128 ≡ true = ground arith in
      let n : leb128_bytes word ≡ 7 = counted ∙ rw (z0, z1, z2, z3, z4, z5, z6) refl in
      let v =
        b0 % 128
        + 128
          * (b1 % 128
              + 128
                * (b2 % 128 + 128 * (b3 % 128 + 128 * (b4 % 128 + 128 * (b5 % 128 + 128 * b6))))) in
      let e : gathered (paired word) ≡ v + 2 ^ 49 * (b7 % 128) = groups ∙ omega arith in
      let l = lower_bits 49 v (b7 % 128) (omega arith) in
      rw (t, u, w, n, e, l) (found 7 v (rw (z0, z1, z2, z3, z4, z5, z6) refl) (omega arith))

  pub eight_bytes :
      128 ≤ b0 → 128 ≤ b1 → 128 ≤ b2 → 128 ≤ b3 → 128 ≤ b4 → 128 ≤ b5 → 128 ≤ b6 → b7 < 128 → Agrees
  unfolding leb128_parts uleb128 before_stop
  eight_bytes k0 k1 k2 k3 k4 k5 k6 k7 =
      let t : (bit_and word 0x80 == 0) ≡ false = ground (arith, one_high_bit) in
      let u : (bit_and word 0x8080808080 == 0x8080808080) ≡ true = ground (arith, five_high_bits) in
      let w : (bit_and word 0x8080808080808080 == 0x8080808080808080) ≡ false =
        ground (arith, eight_high_bits) in
      let z0 : ltb b0 128 ≡ false = ground arith in
      let z1 : ltb b1 128 ≡ false = ground arith in
      let z2 : ltb b2 128 ≡ false = ground arith in
      let z3 : ltb b3 128 ≡ false = ground arith in
      let z4 : ltb b4 128 ≡ false = ground arith in
      let z5 : ltb b5 128 ≡ false = ground arith in
      let z6 : ltb b6 128 ≡ false = ground arith in
      let z7 : ltb b7 128 ≡ true = ground arith in
      let n : leb128_bytes word ≡ 8 = counted ∙ rw (z0, z1, z2, z3, z4, z5, z6, z7) refl in
      let v =
        b0 % 128
        + 128
          * (b1 % 128
              + 128
                * (b2 % 128
                    + 128
                      * (b3 % 128
                          + 128 * (b4 % 128 + 128 * (b5 % 128 + 128 * (b6 % 128 + 128 * b7)))))) in
      let e : gathered (paired word) ≡ v + 2 ^ 56 * (0) = groups ∙ omega arith in
      let l = lower_bits 56 v (0) (omega arith) in
      rw (t, u, w, n, e, l) (found 8 v (rw (z0, z1, z2, z3, z4, z5, z6, z7) refl) (omega arith))

  pub nine_bytes :
      128 ≤ b0
      → 128 ≤ b1
      → 128 ≤ b2
      → 128 ≤ b3
      → 128 ≤ b4
      → 128 ≤ b5
      → 128 ≤ b6
      → 128 ≤ b7
      → b8 < 128
      → Agrees
  unfolding leb128_parts uleb128
  nine_bytes k0 k1 k2 k3 k4 k5 k6 k7 k8 =
      let t : (bit_and word 0x80 == 0) ≡ false = ground (arith, one_high_bit) in
      let u : (bit_and word 0x8080808080 == 0x8080808080) ≡ true = ground (arith, five_high_bits) in
      let w : (bit_and word 0x8080808080808080 == 0x8080808080808080) ≡ true =
        ground (arith, eight_high_bits) in
      let z0 : ltb b0 128 ≡ false = ground arith in
      let z1 : ltb b1 128 ≡ false = ground arith in
      let z2 : ltb b2 128 ≡ false = ground arith in
      let z3 : ltb b3 128 ≡ false = ground arith in
      let z4 : ltb b4 128 ≡ false = ground arith in
      let z5 : ltb b5 128 ≡ false = ground arith in
      let z6 : ltb b6 128 ≡ false = ground arith in
      let z7 : ltb b7 128 ≡ false = ground arith in
      let z8 : ltb b8 128 ≡ true = ground arith in
      let x =
        b0 % 128
        + 2 ^ 7 * (b1 % 128)
        + 2 ^ 14 * (b2 % 128)
        + 2 ^ 21 * (b3 % 128)
        + 2 ^ 28 * (b4 % 128)
        + 2 ^ 35 * (b5 % 128)
        + 2 ^ 42 * (b6 % 128)
        + 2 ^ 49 * (b7 % 128) in
      let small : x < 2 ^ 56 = omega arith in
      let v =
        b0 % 128
        + 128
          * (b1 % 128
              + 128
                * (b2 % 128
                    + 128
                      * (b3 % 128
                          + 128
                            * (b4 % 128
                                + 128
                                  * (b5 % 128
                                      + 128 * (b6 % 128 + 128 * (b7 % 128 + 128 * b8))))))) in
      let e : x + 2 ^ 56 * b8 ≡ v = omega arith in
      rw (t, u, w, groups, many_bytes_nine x b8 b9 small h8 h9 k8, e)
        (found 9 v (rw (z0, z1, z2, z3, z4, z5, z6, z7, z8) refl) (omega arith))

  pub ten_bytes :
      128 ≤ b0
      → 128 ≤ b1
      → 128 ≤ b2
      → 128 ≤ b3
      → 128 ≤ b4
      → 128 ≤ b5
      → 128 ≤ b6
      → 128 ≤ b7
      → 128 ≤ b8
      → b9 < 2
      → Agrees
  unfolding leb128_parts uleb128
  ten_bytes k0 k1 k2 k3 k4 k5 k6 k7 k8 k9 =
      let t : (bit_and word 0x80 == 0) ≡ false = ground (arith, one_high_bit) in
      let u : (bit_and word 0x8080808080 == 0x8080808080) ≡ true = ground (arith, five_high_bits) in
      let w : (bit_and word 0x8080808080808080 == 0x8080808080808080) ≡ true =
        ground (arith, eight_high_bits) in
      let z0 : ltb b0 128 ≡ false = ground arith in
      let z1 : ltb b1 128 ≡ false = ground arith in
      let z2 : ltb b2 128 ≡ false = ground arith in
      let z3 : ltb b3 128 ≡ false = ground arith in
      let z4 : ltb b4 128 ≡ false = ground arith in
      let z5 : ltb b5 128 ≡ false = ground arith in
      let z6 : ltb b6 128 ≡ false = ground arith in
      let z7 : ltb b7 128 ≡ false = ground arith in
      let z8 : ltb b8 128 ≡ false = ground arith in
      let z9 : ltb b9 128 ≡ true = ground arith in
      let x =
        b0 % 128
        + 2 ^ 7 * (b1 % 128)
        + 2 ^ 14 * (b2 % 128)
        + 2 ^ 21 * (b3 % 128)
        + 2 ^ 28 * (b4 % 128)
        + 2 ^ 35 * (b5 % 128)
        + 2 ^ 42 * (b6 % 128)
        + 2 ^ 49 * (b7 % 128) in
      let small : x < 2 ^ 56 = omega arith in
      let v =
        b0 % 128
        + 128
          * (b1 % 128
              + 128
                * (b2 % 128
                    + 128
                      * (b3 % 128
                          + 128
                            * (b4 % 128
                                + 128
                                  * (b5 % 128
                                      + 128
                                        * (b6 % 128
                                            + 128
                                              * (b7 % 128 + 128 * (b8 % 128 + 128 * b9)))))))) in
      let e : x + 2 ^ 56 * (b8 % 128) + 2 ^ 63 * b9 ≡ v = omega arith in
      rw (t, u, w, groups, many_bytes_ten x b8 b9 small h8 h9 k8 k9, e)
        (found 10 v (rw (z0, z1, z2, z3, z4, z5, z6, z7, z8, z9) refl) (omega arith))

  pub over_bytes :
      128 ≤ b0
      → 128 ≤ b1
      → 128 ≤ b2
      → 128 ≤ b3
      → 128 ≤ b4
      → 128 ≤ b5
      → 128 ≤ b6
      → 128 ≤ b7
      → 128 ≤ b8
      → 2 ≤ b9
      → Agrees
  unfolding leb128_parts uleb128
  over_bytes k0 k1 k2 k3 k4 k5 k6 k7 k8 k9 =
      let t : (bit_and word 0x80 == 0) ≡ false = ground (arith, one_high_bit) in
      let u : (bit_and word 0x8080808080 == 0x8080808080) ≡ true = ground (arith, five_high_bits) in
      let w : (bit_and word 0x8080808080808080 == 0x8080808080808080) ≡ true =
        ground (arith, eight_high_bits) in
      let x =
        b0 % 128
        + 2 ^ 7 * (b1 % 128)
        + 2 ^ 14 * (b2 % 128)
        + 2 ^ 21 * (b3 % 128)
        + 2 ^ 28 * (b4 % 128)
        + 2 ^ 35 * (b5 % 128)
        + 2 ^ 42 * (b6 % 128)
        + 2 ^ 49 * (b7 % 128) in
      let small : x < 2 ^ 56 = omega arith in
      let z0 : ltb b0 128 ≡ false = ground arith in
      let z1 : ltb b1 128 ≡ false = ground arith in
      let z2 : ltb b2 128 ≡ false = ground arith in
      let z3 : ltb b3 128 ≡ false = ground arith in
      let z4 : ltb b4 128 ≡ false = ground arith in
      let z5 : ltb b5 128 ≡ false = ground arith in
      let z6 : ltb b6 128 ≡ false = ground arith in
      let z7 : ltb b7 128 ≡ false = ground arith in
      let z8 : ltb b8 128 ≡ false = ground arith in
      let v =
        b0 % 128
        + 128
          * (b1 % 128
              + 128
                * (b2 % 128
                    + 128
                      * (b3 % 128
                          + 128
                            * (b4 % 128
                                + 128
                                  * (b5 % 128
                                      + 128
                                        * (b6 % 128
                                            + 128
                                              * (b7 % 128 + 128 * (b8 % 128 + 128 * b9)))))))) in
      let o : (many_bytes false x (le (b8 ∷ b9 ∷ []))).0 ≡ usize_max =
        many_bytes_over x b8 b9 small h8 h9 k8 k9 in
      rw (t, u, w, groups)
        (elim (dec_lt b9 128) [
          | yes k ↦
              let z9 : ltb b9 128 ≡ true = ground arith in
              large_pair all _ o 10 v (rw (z0, z1, z2, z3, z4, z5, z6, z7, z8, z9) refl)
                (omega arith)
          | no k ↦
              let z9 : ltb b9 128 ≡ false = ground arith in
              endless_pair all _ o (rw (z0, z1, z2, z3, z4, z5, z6, z7, z8, z9) refl)
        ])
