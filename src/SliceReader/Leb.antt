-- ===== src/SliceReader/Leb.antt =====
-- `read_uleb128_u16_or_zero` of src/dwarf.rs against a decoder that goes byte by byte.
use nnd.Base.{
  ℕ, ◌+◌, ◌*◌, ◌/◌, ◌%◌, ◌<◌, ◌≤◌, ◌≡◌, refl, ap, ◌∙◌, true, false, ltb, ◌==◌, [], ◌∷◌, none, some,
  Bytes, IsByte, All, length, take, arith, bit_and, bit_or, bit_or_disjoint, and_none, dec_lt,
}
use nnd.SliceReader.{SliceReader, finish_leb128, usize_max, uleb128_u16, read_uleb128_u16_or_zero}
use nnd.SliceReader.Uleb.{
  uleb128, decoded, finish_leb128_found, finish_leb128_large, finish_leb128_endless,
}
use nnd.SliceReader.Words.{
  le, le_word_read, masked, bit_and-le, bit_and_low, bit_and_high, bit_and_top,
}

module _ (b0 b1 b2 b3 : ℕ) (h0 : b0 < 256) (h1 : b1 < 256) (h2 : b2 < 256) (h3 : b3 < 256) where
  abbrev chunk : ℕ
  chunk = le (b0 ∷ b1 ∷ b2 ∷ b3 ∷ [])

  mask :
      (ms : Bytes) → All IsByte ms → bit_and chunk (le ms) ≡ le (masked (b0 ∷ b1 ∷ b2 ∷ b3 ∷ []) ms)
  mask ms h = bit_and-le (b0 ∷ b1 ∷ b2 ∷ b3 ∷ []) ms (h0, (h1, (h2, (h3, tt)))) h

  first : bit_and chunk 0x7f ≡ b0 % 128
  first = mask (0x7f ∷ []) (omega arith) ∙ omega (arith, bit_and_low b0 h0)

  second : bit_and chunk 0x7f00 / 2 ≡ 128 * (b1 % 128)
  second =
      let m : bit_and chunk 0x7f00 ≡ bit_and b0 0 + 256 * (bit_and b1 0x7f + 256 * 0) =
        mask (0 ∷ 0x7f ∷ []) (omega arith) in
      omega (arith, m, and_none b0, bit_and_low b1 h1)

  third : bit_and chunk 0x7f0000 / 4 ≡ 16384 * (b2 % 128)
  third =
      let m : bit_and chunk 0x7f0000
          ≡ bit_and b0 0 + 256 * (bit_and b1 0 + 256 * (bit_and b2 0x7f + 256 * 0)) =
        mask (0 ∷ 0 ∷ 0x7f ∷ []) (omega arith) in
      omega (arith, m, and_none b0, and_none b1, bit_and_low b2 h2)

  more_one : bit_and chunk 0x80 ≡ b0 / 128 * 128
  more_one = mask (0x80 ∷ []) (omega arith) ∙ omega (arith, bit_and_high b0 h0)

  more_two : bit_and chunk 0x8080 ≡ b0 / 128 * 128 + 256 * (b1 / 128 * 128)
  more_two =
      let m : bit_and chunk 0x8080 ≡ bit_and b0 0x80 + 256 * (bit_and b1 0x80 + 256 * 0) =
        mask (0x80 ∷ 0x80 ∷ []) (omega arith) in
      omega (arith, m, bit_and_high b0 h0, bit_and_high b1 h1)

  too_large : bit_and chunk 0xfc0000 ≡ 65536 * (b2 / 4 * 4)
  too_large =
      let m : bit_and chunk 0xfc0000
          ≡ bit_and b0 0 + 256 * (bit_and b1 0 + 256 * (bit_and b2 0xfc + 256 * 0)) =
        mask (0 ∷ 0 ∷ 0xfc ∷ []) (omega arith) in
      omega (arith, m, and_none b0, and_none b1, bit_and_top b2 h2)

  two_groups : bit_or (b0 % 128) (128 * (b1 % 128)) ≡ b0 % 128 + 128 * (b1 % 128)
  two_groups = bit_or_disjoint 7 (b0 % 128) (b1 % 128) (omega arith)

  three_groups :
      bit_or (b0 % 128 + 128 * (b1 % 128)) (16384 * (b2 % 128))
      ≡ b0 % 128 + 128 * (b1 % 128) + 16384 * (b2 % 128)
  three_groups = bit_or_disjoint 14 (b0 % 128 + 128 * (b1 % 128)) (b2 % 128) (omega arith)

  one_byte : b0 < 128 → uleb128_u16 chunk ≡ (1, b0)
  unfolding uleb128_u16
  one_byte h = ground (arith, more_one, more_two, first)

  two_bytes : 128 ≤ b0 → b1 < 128 → uleb128_u16 chunk ≡ (2, b0 % 128 + 128 * b1)
  unfolding uleb128_u16
  two_bytes h k =
      let c : (bit_and chunk 0x80 == 0) ≡ false = ground (arith, more_one) in
      let d : (bit_and chunk 0x8080 == 0x8080) ≡ false = ground (arith, more_two) in
      let e : b1 % 128 ≡ b1 = omega arith in rw (c, d, first, second, two_groups, e) refl

  three_bytes :
      128 ≤ b0
      → 128 ≤ b1
      → b2 < 4
      → uleb128_u16 chunk ≡ (3, b0 % 128 + 128 * (b1 % 128) + 16384 * b2)
  unfolding uleb128_u16
  three_bytes h k l =
      let c : (bit_and chunk 0x80 == 0) ≡ false = ground (arith, more_one) in
      let d : (bit_and chunk 0x8080 == 0x8080) ≡ true = ground (arith, more_two) in
      let t : (bit_and chunk 0xfc0000 == 0) ≡ true = ground (arith, too_large) in
      let e : b2 % 128 ≡ b2 = omega arith in
      let three : 2 + 1 ≡ 3 = refl in
      rw (c, d, t, first, second, two_groups, third, three_groups, e) refl

  more_bytes : 128 ≤ b0 → 128 ≤ b1 → 4 ≤ b2 → (uleb128_u16 chunk).0 ≡ usize_max
  unfolding uleb128_u16
  more_bytes h k l =
      let c : (bit_and chunk 0x80 == 0) ≡ false = ground (arith, more_one) in
      let d : (bit_and chunk 0x8080 == 0x8080) ≡ true = ground (arith, more_two) in
      let t : (bit_and chunk 0xfc0000 == 0) ≡ false = ground (arith, too_large) in rw (c, d, t) refl

  -- The four cases together: what the tests and masks make of the bytes in front.
  finished_u16 :
      (r : SliceReader) (rest : Bytes)
      → r.n < usize_max
      → finish_leb128 (uleb128_u16 chunk).0 ((uleb128_u16 chunk).1 % 65536) r
        ≡ decoded 65536 r (uleb128 3 (take r.n (b0 ∷ b1 ∷ b2 ∷ b3 ∷ rest)))
  unfolding uleb128
  finished_u16 r rest small =
      let bs = b0 ∷ b1 ∷ b2 ∷ b3 ∷ rest in
      elim (dec_lt b0 128) [
        | yes h ↦
            let z : ltb b0 128 ≡ true = ground arith in
            let d : uleb128 3 bs ≡ some (1, b0) = rw z refl in
            let w : b0 % 65536 ≡ b0 = omega arith in
            rw (one_byte h, w) (finish_leb128_found 65536 r 3 1 b0 bs d (omega arith))
        | no h ↦
            let z : ltb b0 128 ≡ false = ground arith in
            elim (dec_lt b1 128) [
              | yes k ↦
                  let y : ltb b1 128 ≡ true = ground arith in
                  let d : uleb128 3 bs ≡ some (2, b0 % 128 + 128 * b1) = rw (z, y) refl in
                  let w : (b0 % 128 + 128 * b1) % 65536 ≡ b0 % 128 + 128 * b1 = omega arith in
                  rw (two_bytes (omega arith) k, w)
                    (finish_leb128_found 65536 r 3 2 (b0 % 128 + 128 * b1) bs d (omega arith))
              | no k ↦
                  let y : ltb b1 128 ≡ false = ground arith in
                  let v = b0 % 128 + 128 * (b1 % 128 + 128 * b2) in
                  elim (dec_lt b2 128) [
                    | yes l ↦
                        let x : ltb b2 128 ≡ true = ground arith in
                        let d : uleb128 3 bs ≡ some (3, v) = rw (z, y, x) refl in
                        elim (dec_lt b2 4) [
                          | yes m ↦
                              let f : b0 % 128 + 128 * (b1 % 128) + 16384 * b2 ≡ v = omega arith in
                              let w : v % 65536 ≡ v = omega arith in
                              rw (three_bytes (omega arith) (omega arith) m, f, w)
                                (finish_leb128_found 65536 r 3 3 v bs d (omega arith))
                          | no m ↦
                              rw (more_bytes (omega arith) (omega arith) (omega arith))
                                (finish_leb128_large 65536 r 3 3 v _ bs d (omega arith) small)
                        ]
                    | no l ↦
                        let x : ltb b2 128 ≡ false = ground arith in
                        let d : uleb128 3 bs ≡ none = rw (z, y, x) refl in
                        rw (more_bytes (omega arith) (omega arith) (omega arith))
                          (finish_leb128_endless 65536 r 3 _ bs d small)
                  ]
            ]
      ]

-- On a section of fewer than 2^64 - 1 bytes with at least four readable bytes from its start on,
-- read_uleb128_u16_or_zero gives what decoding byte by byte gives. It reads the number and its
-- bytes where that ends within three bytes and within the section and is below 2^16, and gives 0
-- at the end of the section with the mark of an unexpected end in all other cases.
pub read_uleb128_u16_or_zero-decoded :
    (r : SliceReader)
    → All IsByte r.p
    → 4 ≤ length r.p
    → r.n < usize_max
    → read_uleb128_u16_or_zero r ≡ some (decoded 65536 r (uleb128 3 (take r.n r.p)))
unfolding read_uleb128_u16_or_zero
read_uleb128_u16_or_zero-decoded r bytes long small =
    rw (le_word_read 4 r.p long) (ap some (by_bytes r r.p bytes long small))
  where
    by_bytes :
        (r : SliceReader) (p : Bytes)
        → All IsByte p
        → 4 ≤ length p
        → r.n < usize_max
        → (let w = uleb128_u16 (le (take 4 p)) in
            finish_leb128 w.0 (w.1 % 65536) r ≡ decoded 65536 r (uleb128 3 (take r.n p)))
    by_bytes r (b0 ∷ b1 ∷ b2 ∷ b3 ∷ rest) (h0, (h1, (h2, (h3, h)))) long small =
        finished_u16 b0 b1 b2 b3 h0 h1 h2 h3 r rest small
    by_bytes r [] h long small = absurd (omega arith)
    by_bytes r (b0 ∷ []) h long small = absurd (omega arith)
    by_bytes r (b0 ∷ b1 ∷ []) h long small = absurd (omega arith)
    by_bytes r (b0 ∷ b1 ∷ b2 ∷ []) h long small = absurd (omega arith)
