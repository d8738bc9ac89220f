-- ===== src/Tests/ByteIo.antt =====
-- Runs of the byte reader and writer of src/util.rs, and the theorems at concrete values.
use nnd.Base.{◌≡◌, refl, true, [], ◌∷◌, ◌++◌, arith, codes}
use nnd.ByteIo.{
  ok, err, unexpected_eof, invalid_bool, read_u8, read_u16, read_u32, read_u64, read_bool,
  read_slice, write_u8, write_u16, write_u32, write_u64, write_bool, write_slice, read_usize,
  read_number, read_exact, from_le_bytes, read_blocks, to_le_bytes,
}
use nnd.ByteIo.Roundtrip.{read-write}
use nnd.ByteIo.Slice.{read_slice-write_slice}

little_endian : write_u32 0x01020304 ≡ 4 ∷ 3 ∷ 2 ∷ 1 ∷ []
unfolding write_u32 to_le_bytes
little_endian = refl

bad_bool : read_bool (2 ∷ []) ≡ err invalid_bool
unfolding read_bool read_u8 read_number read_exact from_le_bytes
bad_bool = refl

cut_slice : read_slice (write_slice (codes "abc") ++ []) ≡ ok (codes "abc") []
unfolding read_slice read_usize read_number read_exact from_le_bytes read_blocks write_slice
    to_le_bytes
cut_slice = refl

short_slice : read_slice (3 ∷ 0 ∷ 0 ∷ 0 ∷ 0 ∷ 0 ∷ 0 ∷ 0 ∷ codes "ab") ≡ err unexpected_eof
unfolding read_slice read_usize read_number read_exact from_le_bytes read_blocks
short_slice = refl

read-write_example :
    (read_u8 (write_u8 7 ++ codes "x") ≡ ok 7 (codes "x"))
    × (read_u16 (write_u16 0x1234 ++ codes "x") ≡ ok 0x1234 (codes "x"))
    × (read_u32 (write_u32 0x12345678 ++ codes "x") ≡ ok 0x12345678 (codes "x"))
    × (read_u64 (write_u64 0x7ffff7dd1000 ++ codes "x") ≡ ok 0x7ffff7dd1000 (codes "x"))
    × (read_bool (write_bool true ++ codes "x") ≡ ok true (codes "x"))
read-write_example =
    read-write 7 0x1234 0x12345678 0x7ffff7dd1000 true (codes "x") (omega arith) (omega arith)
      (omega arith) (omega arith)

read_slice-write_slice_example :
    read_slice (write_slice (0 ∷ 0xff ∷ []) ++ codes "tail") ≡ ok (0 ∷ 0xff ∷ []) (codes "tail")
read_slice-write_slice_example = read_slice-write_slice (0 ∷ 0xff ∷ []) (codes "tail") (omega arith)
