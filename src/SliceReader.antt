-- ===== src/SliceReader.antt =====
-- `SliceReader` of src/dwarf.rs, which reads numbers from a section of a binary. `p` is the memory
-- from the reader's pointer on, of which the first `n` bytes are the section and the rest is what
-- lies behind it.
pub mod Words
pub mod Uleb
pub mod Leb
pub mod Stops
pub mod Groups
pub mod Gather
pub mod Few
pub mod Many
pub mod Parts
pub mod Long
pub mod Read
pub mod Skip
use nnd.Base.{
  ℕ, zero, suc, ◌+◌, ◌-◌, ◌*◌, ◌/◌, ◌%◌, ◌^◌, Bool, true, false, ltb, ◌==◌, if◌then◌else◌, not,
  ◌&&◌, List, [], ◌∷◌, Option, none, some, ◌>>=◌, Bytes, length, take, drop, bit_and, bit_or,
}

pub record SliceReader : Type 0 where
  pub p : Bytes
  pub n : ℕ
  pub unexpected_eof : Bool

-- `read_unaligned` of a number of so many bytes. `none` is a read of memory that is not there.
unfoldable pub le_word : ℕ → Bytes → Option ℕ
le_word zero p = some 0
le_word (suc k) [] = none
le_word (suc k) (b ∷ p) = le_word k p >>= λ w. some (b + 256 * w)

-- What every read does where the section is too short for it.
unfoldable pub at_eof : SliceReader → SliceReader
at_eof r = record r { unexpected_eof = true; n = 0 }

unfoldable pub advance : ℕ → SliceReader → SliceReader
advance len r = record r { p = drop len r.p; n = r.n - len }

-- `read_u8_or_zero`, `read_u16_or_zero`, `read_u32_or_zero` and `read_u64_or_zero`, by the number
-- of bytes. The first does not set `n`, which is 0 there.
unfoldable pub read_fixed_or_zero : ℕ → SliceReader → Option (ℕ × SliceReader)
unfolding le_word at_eof advance
read_fixed_or_zero len r =
    if ltb r.n len then some (0, at_eof r) else le_word len r.p >>= λ w. some (w, advance len r)

unfoldable pub read_u24_or_zero : SliceReader → Option (ℕ × SliceReader)
unfolding le_word at_eof advance
read_u24_or_zero r =
    if ltb r.n 3
    then some (0, at_eof r)
    else le_word 4 r.p >>= λ w. some (bit_and w 0xffffff, advance 3 r)

unfoldable pub skip : ℕ → SliceReader → SliceReader
unfolding at_eof advance
skip len r = if ltb r.n len then at_eof r else advance len r

-- What a LEB128 read does at its end; `bytes` may be larger than any section.
unfoldable pub finish_leb128 : (bytes res : ℕ) → SliceReader → ℕ × SliceReader
unfolding at_eof advance
finish_leb128 bytes res r = if ltb r.n bytes then (0, at_eof r) else (res, advance bytes r)

abbrev pub usize_max : ℕ
usize_max = 2 ^ 64 - 1

-- The tests and masks of `read_uleb128_u16_or_zero`: the number of bytes and the value.
unfoldable pub uleb128_u16 : (chunk : ℕ) → ℕ × ℕ
uleb128_u16 chunk =
    let one = bit_and chunk 0x7f in
    let two =
      if bit_and chunk 0x80 == 0 then (1, one) else (2, bit_or one (bit_and chunk 0x7f00 / 2)) in
    if bit_and chunk 0x8080 == 0x8080
    then (
      if bit_and chunk 0xfc0000 == 0 then two.0 + 1 else usize_max,
      bit_or two.1 (bit_and chunk 0x7f0000 / 4),
    )
    else two

unfoldable pub read_uleb128_u16_or_zero : SliceReader → Option (ℕ × SliceReader)
unfolding le_word uleb128_u16 finish_leb128
read_uleb128_u16_or_zero r = le_word 4 r.p >>= λ chunk.
    some (finish_leb128 (uleb128_u16 chunk).0 ((uleb128_u16 chunk).1 % 2 ^ 16) r)

-- `trailing_zeros` of a number of so many bits.
unfoldable pub trailing_zeros : ℕ → ℕ → ℕ
trailing_zeros zero x = 0
trailing_zeros (suc bits) x =
    let more = suc (trailing_zeros bits (x / 2)) in if x % 2 == 0 then more else 0

-- `((!chunk) & 0x8080808080808080).trailing_zeros() >> 3) + 1`
unfoldable pub leb128_bytes : (chunk : ℕ) → ℕ
unfolding trailing_zeros
leb128_bytes chunk = trailing_zeros 64 (bit_and (2 ^ 64 - 1 - chunk) 0x8080808080808080) / 8 + 1

-- The branch of `read_leb128_or_zero` for a byte, and the one for 2 to 5 bytes: the number of bytes
-- and the value.
unfoldable pub few_bytes : (chunk : ℕ) → ℕ × ℕ
few_bytes chunk =
    let two = bit_or (bit_and chunk 0x7f) (bit_and chunk 0x7f00 / 2) in
    let three : ℕ × ℕ =
      if bit_and chunk 0x8000 == 0
      then (2, two)
      else (3, bit_or two (bit_and chunk 0x7f0000 / 4)) in
    let four : ℕ × ℕ =
      if bit_and chunk 0x808000 == 0x808000
      then (three.0 + 1, bit_or three.1 (bit_and chunk 0x7f000000 / 8))
      else three in
    if bit_and chunk 0x80808000 == 0x80808000
    then (four.0 + 1, bit_or four.1 (bit_and chunk 0x7f00000000 / 16))
    else four

-- The 8 groups of 7 bits, moved to the low 56 bits.
unfoldable pub paired : (chunk : ℕ) → ℕ
paired chunk = bit_or (bit_and chunk 0x7f007f007f007f00 / 2) (bit_and chunk 0x007f007f007f007f)

unfoldable pub gathered : (x : ℕ) → ℕ
gathered x =
    bit_or
      (bit_or (bit_or (bit_and x 0xffff000000000000 / 64) (bit_and x 0x0000ffff00000000 / 16))
        (bit_and x 0x00000000ffff0000 / 4))
      (bit_and x 0x000000000000ffff)

-- The branch for 9 and 10 bytes, with the two bytes `high` behind the chunk.
unfoldable pub many_bytes : (signed : Bool) → (res high : ℕ) → ℕ × ℕ
many_bytes signed res high =
    let whole = bit_or res (high * 2 ^ 56 % 2 ^ 64) in
    (
      if not (bit_and high 0x80 == 0) && not (bit_and high (if signed then 0x8000 else 0xfe00) == 0)
          then usize_max
          else 9 + bit_and (high / 128) 1,
      bit_and whole (bit_or (high * 2 ^ 55 % 2 ^ 64) 0x7fffffffffffffff),
    )

-- The three branches on the chunk.
unfoldable pub leb128_parts : (signed : Bool) → (chunk : ℕ) → Bytes → Option (ℕ × ℕ)
unfolding le_word few_bytes paired gathered leb128_bytes many_bytes
leb128_parts signed chunk behind =
    let res = gathered (paired chunk) in
    let bytes = leb128_bytes chunk in
    if bit_and chunk 0x80 == 0
    then some (1, bit_and chunk 0x7f)
    else if not (bit_and chunk 0x8080808080 == 0x8080808080)
    then some (few_bytes chunk)
    else if not (bit_and chunk 0x8080808080808080 == 0x8080808080808080)
    then some (bytes, bit_and res (usize_max / 2 ^ (64 - bytes * 7)))
    else le_word 2 behind >>= λ high. some (many_bytes signed res high)

-- `((res as isize) << (64 - bits) >> (64 - bits)) as usize`
unfoldable pub sign_extended : (bytes res : ℕ) → ℕ
sign_extended bytes res =
    let by = 64 - bytes * 7 in
    let x = res * 2 ^ by % 2 ^ 64 in
    if ltb x (2 ^ 63) then x / 2 ^ by else x / 2 ^ by + (2 ^ 64 - 2 ^ (64 - by))

unfoldable pub read_leb128_or_zero : (signed : Bool) → SliceReader → Option (ℕ × SliceReader)
unfolding le_word leb128_parts sign_extended finish_leb128
read_leb128_or_zero signed r = le_word 8 r.p >>= λ chunk.
    leb128_parts signed chunk (drop 8 r.p) >>= λ (bytes, res).
    some (finish_leb128 bytes (if signed && ltb bytes 10 then sign_extended bytes res else res) r)

-- The number of bytes, with the ninth byte of the memory where it is needed.
unfoldable pub skipped_bytes : ℕ → Bytes → Option ℕ
unfolding le_word
skipped_bytes bytes p =
    if bytes == 9 then (le_word 1 (drop 8 p) >>= λ high. some (9 + high / 128)) else some bytes

unfoldable pub skip_leb128 : SliceReader → Option SliceReader
unfolding le_word leb128_bytes skipped_bytes finish_leb128
skip_leb128 r = le_word 8 r.p >>= λ chunk.
    skipped_bytes (leb128_bytes chunk) r.p >>= λ bytes. some (finish_leb128 bytes 0 r).1
