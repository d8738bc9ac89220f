-- ===== src/ByteIo/Roundtrip.antt =====
-- Numbers, Booleans and texts of src/util.rs that were written are read back.
use nnd.Base.{
  ℕ, ◌%◌, ◌^◌, ◌<◌, ◌≡◌, refl, ap, subst, Bool, true, false, if◌then◌else◌, ◌∷◌, ◌++◌, arith, Bytes,
  length,
}
use nnd.ByteIo.{
  ok, err, invalid_utf8, ◌>>=◌, bool_of, to_le_bytes, read_number, read_u8, read_u16, read_u32,
  read_u64, read_bool, write_u8, write_u16, write_u32, write_u64, write_bool, read_str, write_str,
}
use nnd.ByteIo.Slice.{read_slice-write_slice, read_number-to_le_bytes}
use nnd.GdbRemote.Text.{is_utf8}

-- Numbers and Booleans that were written are read back, each by the reader of its width, and what
-- stands behind them is left.
pub read-write :
    (x y z u : ℕ) (b : Bool) (rest : Bytes)
    → x < 2 ^ 8
    → y < 2 ^ 16
    → z < 2 ^ 32
    → u < 2 ^ 64
    → (read_u8 (write_u8 x ++ rest) ≡ ok x rest)
      × (read_u16 (write_u16 y ++ rest) ≡ ok y rest)
      × (read_u32 (write_u32 z ++ rest) ≡ ok z rest)
      × (read_u64 (write_u64 u ++ rest) ≡ ok u rest)
      × (read_bool (write_bool b ++ rest) ≡ ok b rest)
unfolding read_u8 read_u16 read_u32 read_u64 read_bool write_u8 write_u16 write_u32 write_u64
    write_bool to_le_bytes
read-write x y z u b rest hx hy hz hu =
    let m : x % 256 ≡ x = omega arith in
    (
      subst (λ k. read_number 1 (k ∷ rest) ≡ ok x rest) m (read_number-to_le_bytes 1 x rest hx),
      read_number-to_le_bytes 2 y rest hy,
      read_number-to_le_bytes 4 z rest hz,
      read_number-to_le_bytes 8 u rest hu,
      bools b,
    )
  where
    bools : (c : Bool) → read_bool (write_bool c ++ rest) ≡ ok c rest
    bools true = ap (λ r. r >>= bool_of) (read_number-to_le_bytes 1 1 rest (omega arith))
    bools false = ap (λ r. r >>= bool_of) (read_number-to_le_bytes 1 0 rest (omega arith))

-- A text that was written is read back; bytes that are no text are refused by `read_str`.
pub read_str-write_str :
    (text rest : Bytes)
    → length text < 2 ^ 64
    → read_str (write_str text ++ rest) ≡ (if is_utf8 text then ok text rest else err invalid_utf8)
unfolding read_str write_str
read_str-write_str text rest h = rw (read_slice-write_slice text rest h) refl
