-- ===== src/GdbRemote/Hex.antt =====
-- Hexadecimal text of src/gdb_remote.rs, with `{:x}` and `from_str_radix` of the standard library.
use nnd.Base.{
  ℕ, zero, suc, ◌+◌, ◌-◌, ◌*◌, ◌/◌, ◌%◌, ◌^◌, Bool, ltb, leb, ◌==◌, ◌&&◌, if◌then◌else◌, [], ◌∷◌,
  ◌++◌, Option, none, some, Bytes,
}
use nnd.GdbProto.{hex_digit}
use nnd.GdbRemote.Result.{
  Result, ok, err, protocol, odd_length_hex, bad_hex_digit, bad_hex_number, ◌>>=◌,
}

unfoldable pub hex_nibble : ℕ → Result ℕ
hex_nibble c =
    if leb b'0' c && leb c b'9'
    then ok (c - b'0')
    else if leb b'a' c && leb c b'f'
    then ok (c - b'a' + 10)
    else if leb b'A' c && leb c b'F'
    then ok (c - b'A' + 10)
    else err (protocol bad_hex_digit)

-- `{:02x}` of each byte.
unfoldable pub hex_encode : Bytes → Bytes
hex_encode [] = []
hex_encode (b ∷ bs) = hex_digit (b / 16) ∷ hex_digit (b % 16) ∷ hex_encode bs

-- The loop over pairs of digits, behind the test of the length. The high digit is shifted as a
-- `u8`, and the low one fits below it.
unfoldable pub hex_pairs : Bytes → Result Bytes
hex_pairs [] = ok []
hex_pairs (c ∷ []) = err (protocol odd_length_hex)
hex_pairs (c ∷ d ∷ rest) = do
  hi ← hex_nibble c
  lo ← hex_nibble d
  out ← hex_pairs rest
  ok ((hi * 16 % 256 + lo) ∷ out)

unfoldable pub is_even : Bytes → Bool
is_even [] = Bool.true
is_even (c ∷ []) = Bool.false
is_even (c ∷ d ∷ rest) = is_even rest

unfoldable pub hex_decode : Bytes → Result Bytes
hex_decode s = if is_even s then hex_pairs s else err (protocol odd_length_hex)

-- `char::to_digit(16)`.
unfoldable pub to_digit : ℕ → Option ℕ
to_digit c =
    if leb b'0' c && leb c b'9'
    then some (c - b'0')
    else if leb b'a' c && leb c b'f'
    then some (c - b'a' + 10)
    else if leb b'A' c && leb c b'F'
    then some (c - b'A' + 10)
    else none

-- The digits of `from_str_radix(16)` behind the sign, on a type with values below `limit`.
unfoldable pub radix_digits : ℕ → ℕ → Bytes → Option ℕ
radix_digits limit acc [] = some acc
radix_digits limit acc (c ∷ cs) = elim (to_digit c) [
  | none ↦ none
  | some d ↦
      let rest = radix_digits limit (acc * 16 + d) cs in
      if ltb (acc * 16 + d) limit then rest else none
]

-- `from_str_radix(16)` of an unsigned type: an empty text and a lone sign are errors, `+` may
-- stand in front.
unfoldable pub from_str_radix : ℕ → Bytes → Option ℕ
from_str_radix limit [] = none
from_str_radix limit (c ∷ []) = if c == b'+' then none else radix_digits limit 0 (c ∷ [])
from_str_radix limit (c ∷ d ∷ cs) =
    if c == b'+' then radix_digits limit 0 (d ∷ cs) else radix_digits limit 0 (c ∷ d ∷ cs)

unfoldable pub parse_u64_hex : Bytes → Result ℕ
parse_u64_hex s = elim (from_str_radix (2 ^ 64) s) [
  | none ↦ err (protocol bad_hex_number)
  | some v ↦ ok v
]

-- `{:x}` of a number with at most `fuel` digits behind the first: sixteen digits serve a `u64`.
unfoldable pub hex_from : ℕ → ℕ → Bytes
hex_from zero n = hex_digit (n % 16) ∷ []
hex_from (suc fuel) n =
    let more = hex_from fuel (n / 16) ++ hex_digit (n % 16) ∷ [] in
    if ltb n 16 then hex_digit n ∷ [] else more

unfoldable pub lower_hex : ℕ → Bytes
unfolding hex_from
lower_hex n = hex_from 15 n
