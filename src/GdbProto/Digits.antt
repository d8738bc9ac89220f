-- ===== src/GdbProto/Digits.antt =====
-- The checksum of src/gdbproto.rs and its two hexadecimal digits.
use nnd.Base.{ℕ, ◌+◌, ◌/◌, ◌%◌, ◌<◌, ◌≡◌, [], ◌∷◌, some, arith, Bytes, IsByte}
use nnd.GdbProto.{checksum_from, checksum, hex_digit, hex_val, got_checksum}

checksum_from-lt : (a : ℕ) (bs : Bytes) → a < 256 → checksum_from a bs < 256
unfolding checksum_from
checksum_from-lt a [] h = h
checksum_from-lt a (b ∷ bs) h = checksum_from-lt ((a + b) % 256) bs (omega arith)

-- A checksum is a byte.
pub checksum-IsByte : (bs : Bytes) → IsByte (checksum bs)
unfolding checksum
checksum-IsByte bs = checksum_from-lt 0 bs (omega arith)

-- A digit that the encoder writes is read back.
pub hex_val-hex_digit : (n : ℕ) → n < 16 → hex_val (hex_digit n) ≡ some n
unfolding hex_val hex_digit
hex_val-hex_digit n h = ground arith

-- The two digits of a byte give the byte.
pub got_checksum-hex_digit :
    (n : ℕ) → IsByte n → got_checksum (hex_digit (n / 16)) (hex_digit (n % 16)) ≡ n
unfolding got_checksum
got_checksum-hex_digit n h =
    ground
      (arith, hex_val-hex_digit (n / 16) (omega arith), hex_val-hex_digit (n % 16) (omega arith))
