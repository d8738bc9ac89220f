-- ===== src/GdbRemote/Text.antt =====
-- The functions of the standard library on UTF-8 text that src/gdb_remote.rs uses. A text is the
-- list of its bytes.
use mathlib.Core.Option
use nnd.Base.{
  ℕ, zero, suc, ◌-◌, Bool, true, false, ltb, leb, ◌==◌, ◌&&◌, ◌||◌, not, if◌then◌else◌, List, [],
  ◌∷◌, ◌++◌, Option, none, some, Bytes, get_or, drop, take, length,
}

abbrev pub is_within : ℕ → ℕ → ℕ → Bool
is_within lo hi c = leb lo c && leb c hi

-- `c & 0xc0 == 0x80`
abbrev pub is_continuation : ℕ → Bool
is_continuation c = is_within 0x80 0xbf c

-- What stands at the front of a text: the number of bytes to take, and whether they are a
-- character or an invalid sequence.
pub record Chunk : Type 0 where
  pub size : ℕ
  pub valid : Bool

abbrev bad : ℕ → Chunk
bad n = record { size = n; valid = false }

-- The second byte of a character of three bytes.
unfoldable pub second_of_three : ℕ → ℕ → Bool
second_of_three b c =
    (b == 0xe0 && is_within 0xa0 0xbf c)
    || (is_within 0xe1 0xec b && is_continuation c)
    || (b == 0xed && is_within 0x80 0x9f c)
    || (is_within 0xee 0xef b && is_continuation c)

-- The second byte of a character of four bytes.
unfoldable pub second_of_four : ℕ → ℕ → Bool
second_of_four b c =
    (b == 0xf0 && is_within 0x90 0xbf c)
    || (is_within 0xf1 0xf3 b && is_continuation c)
    || (b == 0xf4 && is_within 0x80 0x8f c)

-- The bytes behind `b` are read as 0 past the end.
unfoldable pub char_chunk : ℕ → Bytes → Chunk
unfolding second_of_three second_of_four
char_chunk b rest =
    if ltb b 128
    then record { size = 1; valid = true }
    else if is_within 0xc2 0xdf b
    then (if is_continuation (get_or rest 0 0) then record { size = 2; valid = true } else bad 1)
    else if is_within 0xe0 0xef b
    then (if not (second_of_three b (get_or rest 0 0))
        then bad 1
        else if not (is_continuation (get_or rest 1 0))
        then bad 2
        else record { size = 3; valid = true })
    else if is_within 0xf0 0xf4 b
    then (if not (second_of_four b (get_or rest 0 0))
        then bad 1
        else if not (is_continuation (get_or rest 1 0))
        then bad 2
        else if not (is_continuation (get_or rest 2 0))
        then bad 3
        else record { size = 4; valid = true })
    else bad 1

-- An invalid sequence becomes U+FFFD.
abbrev pub replacement : Bytes
replacement = 0xef ∷ 0xbf ∷ 0xbd ∷ []

-- `from_utf8_lossy`. Each round takes a byte at least, so the length is fuel enough.
unfoldable pub lossy_from : ℕ → Bytes → Bytes
lossy_from zero bs = []
lossy_from (suc fuel) [] = []
lossy_from (suc fuel) (b ∷ rest) =
    let chunk = char_chunk b rest in
    (if chunk.valid then take chunk.size (b ∷ rest) else replacement)
    ++ lossy_from fuel (drop chunk.size (b ∷ rest))

unfoldable pub from_utf8_lossy : Bytes → Bytes
unfolding lossy_from
from_utf8_lossy bs = lossy_from (length bs) bs

-- Whether `from_utf8` succeeds; the text has then the same bytes.
unfoldable pub is_utf8_from : ℕ → Bytes → Bool
is_utf8_from zero bs = true
is_utf8_from (suc fuel) [] = true
is_utf8_from (suc fuel) (b ∷ rest) =
    let chunk = char_chunk b rest in chunk.valid && is_utf8_from fuel (drop chunk.size (b ∷ rest))

unfoldable pub is_utf8 : Bytes → Bool
unfolding is_utf8_from
is_utf8 bs = is_utf8_from (length bs) bs

-- Slicing a text is a panic (`none`) at an index that is past the end or inside a character.
unfoldable pub is_char_boundary : Bytes → ℕ → Bool
is_char_boundary s zero = true
is_char_boundary [] (suc i) = false
is_char_boundary (b ∷ []) (suc zero) = true
is_char_boundary (b ∷ c ∷ rest) (suc zero) = not (is_continuation c)
is_char_boundary (b ∷ rest) (suc (suc i)) = is_char_boundary rest (suc i)

unfoldable pub slice : Bytes → ℕ → ℕ → Option Bytes
slice s from to =
    if leb from to && is_char_boundary s from && is_char_boundary s to
    then some (take (to - from) (drop from s))
    else none

-- `split` at a byte: the pieces between, one at least.
unfoldable pub split_cons : Bool → ℕ → List Bytes → List Bytes
split_cons true b pieces = [] ∷ pieces
split_cons false b [] = (b ∷ []) ∷ []
split_cons false b (piece ∷ pieces) = (b ∷ piece) ∷ pieces

unfoldable pub split : ℕ → Bytes → List Bytes
unfolding split_cons
split sep [] = [] ∷ []
split sep (b ∷ bs) = split_cons (b == sep) b (split sep bs)

-- `split_once`: the parts before and behind the first such byte, if there is one.
unfoldable pub split_once : ℕ → Bytes → Option (Bytes × Bytes)
split_once sep [] = none
split_once sep (b ∷ bs) =
    let later = Option.map (λ (r : Bytes × Bytes). (b ∷ r.0, r.1)) (split_once sep bs) in
    if b == sep then some ([], bs) else later

-- `rsplit(sep).next()`: the last piece.
unfoldable pub last_piece : List Bytes → Bytes
last_piece [] = []
last_piece (p ∷ []) = p
last_piece (p ∷ q ∷ ps) = last_piece (q ∷ ps)

-- `strip_prefix`.
unfoldable pub strip_prefix : Bytes → Bytes → Option Bytes
strip_prefix [] s = some s
strip_prefix (p ∷ ps) [] = none
strip_prefix (p ∷ ps) (b ∷ bs) = let rest = strip_prefix ps bs in if p == b then rest else none

unfoldable pub bytes_eq : Bytes → Bytes → Bool
bytes_eq [] [] = true
bytes_eq [] (b ∷ bs) = false
bytes_eq (a ∷ as_) [] = false
bytes_eq (a ∷ as_) (b ∷ bs) = a == b && bytes_eq as_ bs
