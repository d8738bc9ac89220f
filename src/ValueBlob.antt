-- ===== src/ValueBlob.antt =====
-- `ValueBlob` of src/expr.rs: a value as bytes, up to 24 of them in three words. The words are
-- little-endian, as on the machines that the debugger runs on.
use nnd.Base.{
  ℕ, zero, suc, ◌+◌, ◌-◌, ◌%◌, ◌^◌, min, Bool, true, false, ltb, leb, if◌then◌else◌, List, [], ◌∷◌,
  ◌++◌, Bytes, length, take, drop, replicate,
}
use nnd.ByteIo.{to_le_bytes, from_le_bytes}
pub mod Words
pub mod Bytewise

pub data ValueBlob : Type 0 where
  small : ℕ → ℕ → ℕ → ValueBlob
  big : Bytes → ValueBlob

-- `err` is an error of the code, `panicked` the panic of a slice out of range.
pub data Result (A : Type 0) : Type 0 where
  ok : A → Result A
  err panicked : Result A

unfoldable pub new : ℕ → ValueBlob
new v = small v 0 0

unfoldable pub with_capacity : ℕ → ValueBlob
with_capacity bytes = if leb bytes 24 then small 0 0 0 else big (replicate bytes 0)

unfoldable pub as_slice : ValueBlob → Bytes
as_slice (small a b c) = to_le_bytes 8 a ++ to_le_bytes 8 b ++ to_le_bytes 8 c
as_slice (big v) = v

-- The blob when its bytes, as `as_mut_slice` gives them, have become `bytes`.
unfoldable pub write_back : ValueBlob → Bytes → ValueBlob
write_back (small a b c) bytes =
    small (from_le_bytes (take 8 bytes)) (from_le_bytes (take 8 (drop 8 bytes)))
      (from_le_bytes (take 8 (drop 16 bytes)))
write_back (big v) bytes = big bytes

-- `dest[..src.len()].copy_from_slice(src)`, where it is in range.
abbrev pub copy_front : Bytes → Bytes → Bytes
copy_front src dest = src ++ drop (length src) dest

unfoldable pub from_slice : Bytes → ValueBlob
unfolding with_capacity
from_slice s = let r = with_capacity (length s) in write_back r (copy_front s (as_slice r))

unfoldable pub from_vec : Bytes → ValueBlob
unfolding from_slice
from_vec v = if leb (length v) 24 then from_slice v else big v

unfoldable pub from_two_usizes : ℕ → ℕ → ValueBlob
from_two_usizes a b = small a b 0

unfoldable pub le_words : List ℕ → Bytes
le_words [] = []
le_words (x ∷ xs) = to_le_bytes 8 x ++ le_words xs

unfoldable pub from_u64_slice : List ℕ → ValueBlob
unfolding from_vec le_words
from_u64_slice val = from_vec (le_words val)

unfoldable pub get_usize : ValueBlob → Result ℕ
get_usize (small a b c) = ok a
get_usize (big v) = err

unfoldable pub get_usize_prefix : ValueBlob → ℕ
get_usize_prefix (small a b c) = a
get_usize_prefix (big v) = from_le_bytes (copy_front (take (min (length v) 8) v) (replicate 8 0))

-- The sum is that of a `usize`; the slice panics where it has wrapped around.
unfoldable pub get_usize_at : ValueBlob → ℕ → Result ℕ
unfolding as_slice
get_usize_at blob offset =
    let s = as_slice blob in
    let end = (offset + 8) % 2 ^ 64 in
    if ltb (length s) end
    then err
    else if ltb end offset
    then panicked
    else ok (from_le_bytes (take 8 (drop offset s)))

-- `Vec::resize` with zeros.
unfoldable pub resize_vec : Bytes → ℕ → Bytes
resize_vec v bytes = take bytes v ++ replicate (bytes - length v) 0

-- `v[..bytes]` panics where the big form holds fewer bytes.
unfoldable pub resize : ValueBlob → ℕ → Result ValueBlob
unfolding as_slice resize_vec write_back new
resize (small a b c) bytes =
    if leb bytes 24 then ok (small a b c) else ok (big (resize_vec (as_slice (small a b c)) bytes))
resize (big v) bytes =
    let b = new 0 in
    if ltb 24 bytes
    then ok (big (resize_vec v bytes))
    else if ltb (length v) bytes
    then panicked
    else ok (write_back b (copy_front (take bytes v) (as_slice b)))

unfoldable pub capacity : ValueBlob → ℕ
capacity (small a b c) = 24
capacity (big v) = length v
