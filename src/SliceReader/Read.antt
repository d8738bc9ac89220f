-- ===== src/SliceReader/Read.antt =====
-- `read_leb128_or_zero` of src/dwarf.rs, for unsigned numbers, against a decoder that goes byte by
-- byte.
use nnd.Base.{
  All-take, ℕ, ◌^◌, ◌<◌, ◌≤◌, ◌≡◌, refl, ap, false, [], ◌∷◌, Option, some, ◌>>=◌, Bytes, IsByte,
  All, length, take, drop, arith, dec_lt, All-get, ◌⊎◌, inl, inr,
}
use nnd.SliceReader.{SliceReader, leb128_parts, finish_leb128, usize_max, read_leb128_or_zero}
use nnd.SliceReader.Words.{le, le_word_read, TenBytes, ten, TenBytes-of}
use nnd.SliceReader.Uleb.{
  uleb128, decoded, finish_leb128_found, finish_leb128_large, finish_leb128_endless,
}
use nnd.SliceReader.Parts.{
  Parts, found, large, endless, one_byte, two_bytes, three_bytes, four_bytes, five_bytes,
}
use nnd.SliceReader.Long.{six_bytes, seven_bytes, eight_bytes, nine_bytes, ten_bytes, over_bytes}

short : (b : ℕ) → (b < 128) ⊎ (128 ≤ b)
short b = elim (dec_lt b 128) [ yes k ↦ inl k | no k ↦ inr (omega arith) ]

module _ (b0 b1 b2 b3 b4 b5 b6 b7 b8 b9 : ℕ) (rest : Bytes)
    (h : All IsByte (b0 ∷ b1 ∷ b2 ∷ b3 ∷ b4 ∷ b5 ∷ b6 ∷ b7 ∷ [])) (h8 : b8 < 256)
    (h9 : b9 < 256) where
  all-Parts :
      Parts
        (b0 ∷ b1 ∷ b2 ∷ b3 ∷ b4 ∷ b5 ∷ b6 ∷ b7 ∷ b8 ∷ b9 ∷ rest)
        (leb128_parts false (le (b0 ∷ b1 ∷ b2 ∷ b3 ∷ b4 ∷ b5 ∷ b6 ∷ b7 ∷ [])) (b8 ∷ b9 ∷ rest))
  all-Parts = elim (short b0) [
    | inl k ↦ one_byte b0 b1 b2 b3 b4 b5 b6 b7 b8 b9 rest h h8 h9 k
    | inr k0 ↦ elim (short b1) [
      | inl k ↦ two_bytes b0 b1 b2 b3 b4 b5 b6 b7 b8 b9 rest h h8 h9 k0 k
      | inr k1 ↦ elim (short b2) [
        | inl k ↦ three_bytes b0 b1 b2 b3 b4 b5 b6 b7 b8 b9 rest h h8 h9 k0 k1 k
        | inr k2 ↦ elim (short b3) [
          | inl k ↦ four_bytes b0 b1 b2 b3 b4 b5 b6 b7 b8 b9 rest h h8 h9 k0 k1 k2 k
          | inr k3 ↦ elim (short b4) [
            | inl k ↦ five_bytes b0 b1 b2 b3 b4 b5 b6 b7 b8 b9 rest h h8 h9 k0 k1 k2 k3 k
            | inr k4 ↦ elim (short b5) [
              | inl k ↦ six_bytes b0 b1 b2 b3 b4 b5 b6 b7 b8 b9 rest h h8 h9 k0 k1 k2 k3 k4 k
              | inr k5 ↦ elim (short b6) [
                | inl k ↦ seven_bytes b0 b1 b2 b3 b4 b5 b6 b7 b8 b9 rest h h8 h9 k0 k1 k2 k3 k4 k5 k
                | inr k6 ↦ elim (short b7) [
                  | inl k ↦
                      eight_bytes b0 b1 b2 b3 b4 b5 b6 b7 b8 b9 rest h h8 h9 k0 k1 k2 k3 k4 k5 k6 k
                  | inr k7 ↦ elim (short b8) [
                    | inl k ↦
                        nine_bytes b0 b1 b2 b3 b4 b5 b6 b7 b8 b9 rest h h8 h9 k0 k1 k2 k3 k4 k5 k6
                          k7 k
                    | inr k8 ↦ elim (dec_lt b9 2) [
                      | yes k ↦
                          ten_bytes b0 b1 b2 b3 b4 b5 b6 b7 b8 b9 rest h h8 h9 k0 k1 k2 k3 k4 k5 k6
                            k7 k8 k
                      | no k ↦
                          over_bytes b0 b1 b2 b3 b4 b5 b6 b7 b8 b9 rest h h8 h9 k0 k1 k2 k3 k4 k5 k6
                            k7 k8 (omega arith)
                    ]
                  ]
                ]
              ]
            ]
          ]
        ]
      ]
    ]
  ]

finished :
    (r : SliceReader) (bs : Bytes) (q : Option (ℕ × ℕ))
    → r.n < usize_max
    → Parts bs q
    → (q >>= λ (bytes, res). some (finish_leb128 bytes res r))
      ≡ some (decoded (2 ^ 64) r (uleb128 10 (take r.n bs)))
finished r bs q small (found c v u l) = ap some (finish_leb128_found (2 ^ 64) r 10 c v bs u l)
finished r bs q small (large c v res u l) =
    ap some (finish_leb128_large (2 ^ 64) r 10 c v res bs u l small)
finished r bs q small (endless res u) = ap some (finish_leb128_endless (2 ^ 64) r 10 res bs u small)

-- What follows the load of the first eight bytes.
by_bytes :
    (r : SliceReader) {p : Bytes}
    → TenBytes p
    → All IsByte p
    → r.n < usize_max
    → (leb128_parts false (le (take 8 p)) (drop 8 p) >>= λ (bytes, res).
        some (finish_leb128 bytes res r))
      ≡ some (decoded (2 ^ 64) r (uleb128 10 (take r.n p)))
by_bytes r (ten b0 b1 b2 b3 b4 b5 b6 b7 b8 b9 rest) h small =
    let p = b0 ∷ b1 ∷ b2 ∷ b3 ∷ b4 ∷ b5 ∷ b6 ∷ b7 ∷ b8 ∷ b9 ∷ rest in
    finished r p _ small (
      all-Parts b0 b1 b2 b3 b4 b5 b6 b7 b8 b9 rest (All-take IsByte 8 p h)
        (All-get IsByte p 8 h refl) (All-get IsByte p 9 h refl))

-- On a section of fewer than 2^64 - 1 bytes, with at least ten readable bytes from the reader on,
-- the unsigned read_leb128_or_zero gives what decoding byte by byte gives. It reads the number and
-- its bytes where that ends within ten bytes and within the section and is below 2^64, and gives 0
-- at the end of the section, with the mark of an unexpected end, in all other cases.
pub read_leb128_or_zero-decoded :
    (r : SliceReader)
    → All IsByte r.p
    → 10 ≤ length r.p
    → r.n < usize_max
    → read_leb128_or_zero false r ≡ some (decoded (2 ^ 64) r (uleb128 10 (take r.n r.p)))
unfolding read_leb128_or_zero
read_leb128_or_zero-decoded r bytes long small =
    rw (le_word_read 8 r.p (omega arith)) (by_bytes r (TenBytes-of r.p long) bytes small)
