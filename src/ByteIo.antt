-- ===== src/ByteIo.antt =====
-- The traits `ByteRead` and `ByteWrite` of src/util.rs, in which the saved state is kept: unsigned
-- numbers, Booleans, slices and texts. The reader is the bytes that it still has, and fails where
-- they end; what is written is the bytes.
use nnd.Base.{
  ℕ, zero, suc, ◌+◌, ◌-◌, ◌*◌, ◌/◌, ◌%◌, ◌^◌, min, Bool, true, false, ltb, if◌then◌else◌, List, [],
  ◌∷◌, ◌++◌, Bytes, length, take, drop,
}
use nnd.GdbRemote.Text.{is_utf8}
pub mod Slice
pub mod Roundtrip

pub data ReadError : Type 0 where
  unexpected_eof invalid_bool invalid_utf8 : ReadError

-- A value and the reader behind it.
pub data ReadResult (A : Type 0) : Type 0 where
  ok : A → Bytes → ReadResult A
  err : ReadError → ReadResult A

infixl 5 ◌>>=◌
abbrev pub ◌>>=◌ : {A B : Type 0} → ReadResult A → (A → Bytes → ReadResult B) → ReadResult B
ok a s >>= f = f a s
err e >>= f = err e

-- `to_le_bytes` of a number of `width` bytes, and back.
unfoldable pub to_le_bytes : ℕ → ℕ → Bytes
to_le_bytes zero x = []
to_le_bytes (suc width) x = x % 256 ∷ to_le_bytes width (x / 256)

unfoldable pub from_le_bytes : Bytes → ℕ
from_le_bytes [] = 0
from_le_bytes (b ∷ bs) = b + 256 * from_le_bytes bs

unfoldable pub read_exact : ℕ → Bytes → ReadResult Bytes
read_exact n s = if ltb (length s) n then err unexpected_eof else ok (take n s) (drop n s)

unfoldable pub read_number : ℕ → Bytes → ReadResult ℕ
unfolding read_exact from_le_bytes
read_number width s = read_exact width s >>= λ bytes rest. ok (from_le_bytes bytes) rest

unfoldable pub read_u8 : Bytes → ReadResult ℕ
unfolding read_number
read_u8 = read_number 1

unfoldable pub read_u16 : Bytes → ReadResult ℕ
unfolding read_number
read_u16 = read_number 2

unfoldable pub read_u32 : Bytes → ReadResult ℕ
unfolding read_number
read_u32 = read_number 4

unfoldable pub read_u64 : Bytes → ReadResult ℕ
unfolding read_number
read_u64 = read_number 8

unfoldable pub read_usize : Bytes → ReadResult ℕ
unfolding read_number
read_usize = read_number 8

abbrev pub bool_of : ℕ → Bytes → ReadResult Bool
bool_of zero rest = ok false rest
bool_of (suc zero) rest = ok true rest
bool_of _ rest = err invalid_bool

unfoldable pub read_bool : Bytes → ReadResult Bool
unfolding read_u8
read_bool s = read_u8 s >>= bool_of

abbrev pub block_size : ℕ
block_size = 2 ^ 20

-- The loop of `read_slice`: a block at a time, up to `n` bytes. Each round adds a byte, so that
-- `n` is fuel enough, and it ends without fuel only when it is done.
unfoldable pub read_blocks : ℕ → ℕ → ℕ → Bytes → Bytes → ReadResult Bytes
unfolding read_exact
read_blocks zero n pos v s = ok v s
read_blocks (suc fuel) n pos v s =
    let add = min block_size (n - pos) in
    let more =
      read_exact add s >>= λ block rest. read_blocks fuel n (pos + add) (v ++ block) rest in
    if ltb pos n then more else ok v s

unfoldable pub read_slice : Bytes → ReadResult Bytes
unfolding read_usize read_blocks
read_slice s = read_usize s >>= λ n rest. read_blocks n n 0 [] rest

unfoldable pub read_str : Bytes → ReadResult Bytes
unfolding read_slice
read_str s = read_slice s >>= λ v rest. if is_utf8 v then ok v rest else err invalid_utf8

unfoldable pub write_u8 : ℕ → Bytes
unfolding to_le_bytes
write_u8 x = x ∷ []

unfoldable pub write_u16 : ℕ → Bytes
unfolding to_le_bytes
write_u16 x = to_le_bytes 2 x

unfoldable pub write_u32 : ℕ → Bytes
unfolding to_le_bytes
write_u32 x = to_le_bytes 4 x

unfoldable pub write_u64 : ℕ → Bytes
unfolding to_le_bytes
write_u64 x = to_le_bytes 8 x

unfoldable pub write_usize : ℕ → Bytes
unfolding to_le_bytes
write_usize x = to_le_bytes 8 x

unfoldable pub write_bool : Bool → Bytes
write_bool true = 1 ∷ []
write_bool false = 0 ∷ []

unfoldable pub write_slice : Bytes → Bytes
unfolding write_usize
write_slice s = write_usize (length s) ++ s

unfoldable pub write_str : Bytes → Bytes
unfolding write_slice
write_str s = write_slice s
