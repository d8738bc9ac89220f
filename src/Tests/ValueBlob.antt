-- ===== src/Tests/ValueBlob.antt =====
-- The blobs of src/expr.rs on small values, and their theorems at concrete bytes.
use nnd.Base.{◌≡◌, refl, ◌∷◌, replicate}
use nnd.ByteIo.{to_le_bytes, from_le_bytes}
use nnd.ValueBlob.{ValueBlob, small, big, ok, panicked, as_slice, get_usize_at, get_usize_prefix}

prefix_of_big : get_usize_prefix (big (1 ∷ 2 ∷ replicate 30 0)) ≡ 0x201
unfolding get_usize_prefix from_le_bytes
prefix_of_big = refl

second_word : get_usize_at (small 1 2 3) 8 ≡ ok 2
unfolding get_usize_at as_slice to_le_bytes from_le_bytes
second_word = refl

-- The sum of the offset and 8 wraps around.
huge_offset : get_usize_at (small 1 2 3) 0xffffffffffffffff ≡ panicked
unfolding get_usize_at as_slice to_le_bytes from_le_bytes
huge_offset = refl

abbrev sixteen : ValueBlob
sixteen = big (9 ∷ replicate 29 1)
