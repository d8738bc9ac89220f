-- ===== src/Tests/SliceReader.antt =====
-- Reads of LEB128 numbers, one of them of ten bytes and one that the section cuts off.
use nnd.Base.{
  ℕ, ◌-◌, ◌^◌, ◌≡◌, refl, true, false, [], ◌∷◌, some, arith, ◌++◌, Bytes, take, replicate,
}
use nnd.SliceReader.{
  SliceReader, read_leb128_or_zero, read_uleb128_u16_or_zero, skip_leb128, read_u24_or_zero,
  read_fixed_or_zero,
}
use nnd.SliceReader.Uleb.{uleb128, decoded}
use nnd.SliceReader.Leb.{read_uleb128_u16_or_zero-decoded}
use nnd.SliceReader.Read.{read_leb128_or_zero-decoded}
use nnd.SliceReader.Skip.{leb128_length, skipped, skip_leb128-skipped}

abbrev padding : Bytes
padding = replicate 15 0

abbrev reader : Bytes → ℕ → SliceReader
reader p n = record { p = p ++ padding; n = n; unexpected_eof = false }

abbrev three : SliceReader
three = reader (0xe5 ∷ 0x8e ∷ 0x26 ∷ 7 ∷ []) 4

three_read : read_leb128_or_zero false three ≡ some (624485, reader (7 ∷ []) 1)
unfolding read_leb128_or_zero
three_read = refl

three_skipped : skip_leb128 three ≡ some (reader (7 ∷ []) 1)
unfolding skip_leb128
three_skipped = refl

all_bits :
    read_leb128_or_zero false (reader (replicate 9 0xff ++ 1 ∷ []) 10)
    ≡ some (2 ^ 64 - 1, reader [] 0)
unfolding read_leb128_or_zero
all_bits = refl

minus_two : read_leb128_or_zero true (reader (0x7e ∷ []) 1) ≡ some (2 ^ 64 - 2, reader [] 0)
unfolding read_leb128_or_zero
minus_two = refl

cut_off :
    read_leb128_or_zero false (reader (0xe5 ∷ 0x8e ∷ []) 1)
    ≡ some (0, record (reader (0xe5 ∷ 0x8e ∷ []) 0) { unexpected_eof = true })
unfolding read_leb128_or_zero
cut_off = refl

two_of_three : read_u24_or_zero (reader (1 ∷ 2 ∷ 3 ∷ 9 ∷ []) 4) ≡ some (0x030201, reader (9 ∷ []) 1)
unfolding read_u24_or_zero
two_of_three = refl

half_word : read_fixed_or_zero 2 (reader (1 ∷ 2 ∷ []) 2) ≡ some (0x0201, reader [] 0)
unfolding read_fixed_or_zero
half_word = refl

read_leb128_or_zero-decoded_example :
    read_leb128_or_zero false three
    ≡ some (decoded (2 ^ 64) three (uleb128 10 (take three.n three.p)))
read_leb128_or_zero-decoded_example =
    read_leb128_or_zero-decoded three (omega arith) (omega arith) (omega arith)

read_uleb128_u16_or_zero-decoded_example :
    read_uleb128_u16_or_zero three ≡ some (decoded 65536 three (uleb128 3 (take three.n three.p)))
read_uleb128_u16_or_zero-decoded_example =
    read_uleb128_u16_or_zero-decoded three (omega arith) (omega arith) (omega arith)

skip_leb128-skipped_example :
    skip_leb128 three ≡ some (skipped three (leb128_length 10 (take three.n three.p)))
skip_leb128-skipped_example = skip_leb128-skipped three (omega arith) (omega arith)
