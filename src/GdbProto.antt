-- ===== src/GdbProto.antt =====
-- src/gdbproto.rs: framing of the GDB remote serial protocol, that is the packet encoder, the
-- binary escaping and the incremental decoder. Bytes are numbers; `u8` arithmetic wraps at 256.
pub mod Digits
pub mod Escape
pub mod Frame
pub mod Stream
pub mod Invariant
pub mod Received
pub mod Sound
use nnd.Base.{
  ℕ, ◌+◌, ◌-◌, ◌*◌, ◌/◌, ◌%◌, ◌^◌, Bool, false, not, ◌&&◌, ◌||◌, ◌==◌, ltb, leb, if◌then◌else◌,
  List, [], ◌∷◌, ◌++◌, Option, none, some, ◌>>=◌, bit_xor, Bytes,
}

-- The fold of `checksum`, from any accumulator.
unfoldable pub checksum_from : ℕ → Bytes → ℕ
checksum_from a [] = a
checksum_from a (b ∷ bs) = checksum_from ((a + b) % 256) bs

unfoldable pub checksum : Bytes → ℕ
unfolding checksum_from
checksum payload = checksum_from 0 payload

unfoldable pub hex_digit : ℕ → ℕ
hex_digit n = if ltb n 10 then (b'0' + n) % 256 else (b'a' + (n - 10)) % 256

unfoldable pub hex_val : ℕ → Option ℕ
hex_val c =
    if leb b'0' c && leb c b'9'
    then some (c - b'0')
    else if leb b'a' c && leb c b'f'
    then some (c - b'a' + 10)
    else if leb b'A' c && leb c b'F'
    then some (c - b'A' + 10)
    else none

-- `cs >> 4` and `cs & 0xf`, written as quotient and remainder.
unfoldable pub encode_packet : Bytes → Bytes
encode_packet payload =
    let cs = checksum payload in
    b'$' ∷ (payload ++ b'#' ∷ hex_digit (cs / 16) ∷ hex_digit (cs % 16) ∷ [])

unfoldable pub needs_escape : ℕ → Bool
needs_escape b = b == 0x7d || b == 0x7e || b == b'#' || b == b'$'

unfoldable pub escape : Bytes → Bytes
unfolding needs_escape
escape [] = []
escape (b ∷ bs) = (if needs_escape b then 0x7d ∷ bit_xor b 0x20 ∷ [] else b ∷ []) ++ escape bs

-- The one error is the message "trailing escape byte".
pub data Unescaped : Type 0 where
  ok : Bytes → Unescaped
  trailing_escape_byte : Unescaped

-- The loop of `unescape` over what is left of `data`, with `out` in front.
unfoldable pub unescape_from : Bytes → Bytes → Unescaped
unescape_from out [] = ok out
unescape_from out (b ∷ []) = if b == 0x7d then trailing_escape_byte else ok (out ++ b ∷ [])
unescape_from out (b ∷ c ∷ rest) =
    let plain = unescape_from (out ++ b ∷ []) (c ∷ rest) in
    let escaped = unescape_from (out ++ bit_xor c 0x20 ∷ []) rest in
    if b == 0x7d then escaped else plain

unfoldable pub unescape : Bytes → Unescaped
unfolding unescape_from
unescape bytes = unescape_from [] bytes

pub data Decoded : Type 0 where
  packet : Bytes → Decoded
  ack nack interrupt : Decoded

-- `Data` is `in_data`; `Checksum {chars, n}` has the two characters and the number of them read.
pub data State : Type 0 where
  idle in_data : State
  in_checksum : ℕ → ℕ → ℕ → State

pub record Decoder : Type 0 where
  pub state : State
  pub payload : Bytes
  pub no_ack : Bool
  pub bad_checksums : ℕ

unfoldable pub new : Decoder
new = record { state = idle; payload = []; no_ack = false; bad_checksums = 0 }

unfoldable pub set_no_ack : Decoder → Bool → Decoder
set_no_ack d flag = record d { no_ack = flag }

-- `chars[n] = b` on the array of two: `none` is the panic of an index out of range.
unfoldable pub put_char : ℕ → ℕ → ℕ → ℕ → Option (ℕ × ℕ)
put_char c0 c1 ℕ.zero b = some (b, c1)
put_char c0 c1 (ℕ.suc ℕ.zero) b = some (c0, b)
put_char c0 c1 _ b = none

abbrev pub val_or_zero : Option ℕ → ℕ
val_or_zero none = 0
val_or_zero (some v) = v

-- The received checksum: the high digit is shifted as a `u8`; the low one fits its four bits.
unfoldable pub got_checksum : ℕ → ℕ → ℕ
unfolding hex_val
got_checksum c0 c1 = val_or_zero (hex_val c0) * 16 % 256 + val_or_zero (hex_val c1)

unfoldable pub step_idle : Decoder → ℕ → Decoder × List Decoded
step_idle d b =
    if b == b'$'
    then (record d { payload = []; state = in_data }, [])
    else if b == b'+' && not d.no_ack
    then (d, ack ∷ [])
    else if b == b'-' && not d.no_ack
    then (d, nack ∷ [])
    else if b == 0x03
    then (d, interrupt ∷ [])
    else (d, [])

unfoldable pub step_data : Decoder → ℕ → Decoder
step_data d b =
    if b == b'#'
    then record d { state = in_checksum 0 0 0 }
    else if b == b'$'
    then record d { payload = [] }
    else record d { payload = d.payload ++ b ∷ [] }

-- After the second digit. `bad_checksums` is a `u64`.
unfoldable pub finish_packet : Decoder → ℕ → ℕ → Decoder × List Decoded
unfolding got_checksum checksum
finish_packet d c0 c1 =
    if got_checksum c0 c1 == checksum d.payload
    then (record d { state = idle; payload = [] }, packet d.payload ∷ [])
    else (
      record d { state = idle; payload = []; bad_checksums = (d.bad_checksums + 1) % 2 ^ 64 },
      [],
    )

unfoldable pub step_checksum : Decoder → ℕ → ℕ × ℕ → Decoder × List Decoded
unfolding finish_packet
step_checksum d n (c0, c1) =
    if ltb (n + 1) 2
    then (record d { state = in_checksum c0 c1 (n + 1) }, [])
    else finish_packet d c0 c1

-- One byte of the loop in `feed`, on the decoder's state.
unfoldable pub step_in : State → Decoder → ℕ → Option (Decoder × List Decoded)
unfolding step_idle step_data put_char step_checksum
step_in idle d b = some (step_idle d b)
step_in in_data d b = some (step_data d b, [])
step_in (in_checksum c0 c1 n) d b = do chars ← put_char c0 c1 n b; some (step_checksum d n chars)

-- What one part of the input completed stands before what the rest completes.
abbrev pub after : List Decoded → Option (Decoder × List Decoded) → Option (Decoder × List Decoded)
after out none = none
after out (some (d, more)) = some (d, out ++ more)

unfoldable pub feed : Decoder → Bytes → Option (Decoder × List Decoded)
feed d [] = some (d, [])
feed d (b ∷ bs) = do (d', out) ← step_in d.state d b; after out (feed d' bs)
