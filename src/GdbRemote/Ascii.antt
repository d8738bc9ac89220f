-- ===== src/GdbRemote/Ascii.antt =====
-- ASCII text in src/gdb_remote.rs: the functions of the standard library leave it as it is.
use nnd.Base.{
  ℕ, zero, suc, ◌/◌, ◌%◌, ◌<◌, ◌≤◌, ◌≡◌, refl, ap, true, false, ◌==◌, [], ◌∷◌, arith, Bytes, IsByte,
  All, length, lt→ltb,
}
use nnd.GdbProto.{hex_digit}
use nnd.GdbProto.Received.{IsUnframed}
use nnd.GdbProto.Frame.{IsPayload}
use nnd.GdbRemote.Commands.{hex_reply}
use nnd.GdbRemote.Hex.{hex_encode}
use nnd.GdbRemote.HexLaws.{hex_decode-hex_encode}
use nnd.GdbRemote.Result.{ok}
use nnd.GdbRemote.Text.{char_chunk, lossy_from, from_utf8_lossy, is_utf8_from, is_utf8}
use nnd.GdbRemote.Waiting.{starts_with}

abbrev pub IsAscii : ℕ → Type 0
IsAscii b = b < 128

pub char_chunk_ascii :
    (b : ℕ) (rest : Bytes) → IsAscii b → char_chunk b rest ≡ record { size = 1; valid = true }
unfolding char_chunk
char_chunk_ascii b rest h = rw (lt→ltb b 128 h)

lossy_from_ascii : (n : ℕ) (bs : Bytes) → length bs ≤ n → All IsAscii bs → lossy_from n bs ≡ bs
unfolding lossy_from
lossy_from_ascii zero [] l h = refl
lossy_from_ascii zero (b ∷ bs) l h = absurd (omega arith)
lossy_from_ascii (suc n) [] l h = refl
lossy_from_ascii (suc n) (b ∷ bs) l h =
    rw (char_chunk_ascii b bs h.0) (ap (◌∷◌ b) (lossy_from_ascii n bs (omega arith) h.1))

-- ASCII bytes are read as they are.
pub from_utf8_lossy_ascii : (bs : Bytes) → All IsAscii bs → from_utf8_lossy bs ≡ bs
unfolding from_utf8_lossy
from_utf8_lossy_ascii bs h = lossy_from_ascii (length bs) bs (omega arith) h

is_utf8_from_ascii : (n : ℕ) (bs : Bytes) → All IsAscii bs → is_utf8_from n bs ≡ true
unfolding is_utf8_from
is_utf8_from_ascii zero bs h = refl
is_utf8_from_ascii (suc n) [] h = refl
is_utf8_from_ascii (suc n) (b ∷ bs) h = rw (char_chunk_ascii b bs h.0) (is_utf8_from_ascii n bs h.1)

pub is_utf8_ascii : (bs : Bytes) → All IsAscii bs → is_utf8 bs ≡ true
unfolding is_utf8
is_utf8_ascii bs h = is_utf8_from_ascii (length bs) bs h

hex_digit-IsAscii : (n : ℕ) → n < 16 → IsAscii (hex_digit n)
unfolding hex_digit
hex_digit-IsAscii n h = ground arith

hex_digit-IsUnframed : (n : ℕ) → n < 16 → IsUnframed (hex_digit n)
unfolding hex_digit
hex_digit-IsUnframed n h = (ground arith, ground arith)

pub hex_encode-IsAscii : (bs : Bytes) → All IsByte bs → All IsAscii (hex_encode bs)
unfolding hex_encode
hex_encode-IsAscii [] h = tt
hex_encode-IsAscii (b ∷ bs) h = (
  hex_digit-IsAscii (b / 16) (omega arith),
  (hex_digit-IsAscii (b % 16) (omega arith), hex_encode-IsAscii bs h.1),
)

pub hex_encode-IsPayload : (bs : Bytes) → All IsByte bs → IsPayload (hex_encode bs)
unfolding hex_encode
hex_encode-IsPayload [] h = tt
hex_encode-IsPayload (b ∷ bs) h = (
  hex_digit-IsUnframed (b / 16) (omega arith),
  (hex_digit-IsUnframed (b % 16) (omega arith), hex_encode-IsPayload bs h.1),
)

hex_digit_ne_e : (n : ℕ) → n < 16 → (hex_digit n == b'E') ≡ false
unfolding hex_digit
hex_digit_ne_e n h = ground arith

hex_encode-starts_with : (bs : Bytes) → All IsByte bs → starts_with b'E' (hex_encode bs) ≡ false
unfolding hex_encode starts_with
hex_encode-starts_with [] h = refl
hex_encode-starts_with (b ∷ bs) h = hex_digit_ne_e (b / 16) (omega arith)

-- A reply that is the hexadecimal form of some bytes gives these bytes.
pub hex_reply-hex_encode : (bs : Bytes) → All IsByte bs → hex_reply (hex_encode bs) ≡ ok bs
unfolding hex_reply
hex_reply-hex_encode bs h =
    rw (hex_encode-starts_with bs h, is_utf8_ascii (hex_encode bs) (hex_encode-IsAscii bs h))
      (hex_decode-hex_encode bs h)
