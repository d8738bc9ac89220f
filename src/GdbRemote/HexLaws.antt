-- ===== src/GdbRemote/HexLaws.antt =====
-- Hexadecimal text of src/gdb_remote.rs is read back.
use nnd.Base.{
  ℕ, zero, suc, ◌+◌, ◌*◌, ◌/◌, ◌%◌, ◌^◌, ◌<◌, ◌≡◌, refl, ap, ◌∙◌, true, false, ltb, ◌==◌, [], ◌∷◌,
  ◌++◌, some, Bytes, IsByte, All, arith, Bool-cases, inl, inr, ltb→lt, some-injective, Option-cases,
}
use native.Mathlib.Nat.{pow-suc}
use nnd.GdbProto.{hex_digit}
use nnd.GdbRemote.Result.{ok}
use nnd.GdbRemote.Hex.{
  hex_nibble, hex_encode, hex_pairs, is_even, hex_decode, to_digit, radix_digits, from_str_radix,
  parse_u64_hex, hex_from, lower_hex,
}

hex_nibble-hex_digit : (n : ℕ) → n < 16 → hex_nibble (hex_digit n) ≡ ok n
unfolding hex_nibble hex_digit
hex_nibble-hex_digit n h = ground arith

to_digit-hex_digit : (n : ℕ) → n < 16 → to_digit (hex_digit n) ≡ some n
unfolding to_digit hex_digit
to_digit-hex_digit n h = ground arith

hex_digit_ne_plus : (n : ℕ) → n < 16 → (hex_digit n == b'+') ≡ false
unfolding hex_digit
hex_digit_ne_plus n h = ground arith

byte_of_digits : (b : ℕ) → IsByte b → b / 16 * 16 % 256 + b % 16 ≡ b
byte_of_digits b h = omega arith

hex_pairs-hex_encode : (bs : Bytes) → All IsByte bs → hex_pairs (hex_encode bs) ≡ ok bs
unfolding hex_pairs hex_encode
hex_pairs-hex_encode [] h = refl
hex_pairs-hex_encode (b ∷ bs) h = rw (
  hex_nibble-hex_digit (b / 16) (omega arith),
  hex_nibble-hex_digit (b % 16) (omega arith),
  hex_pairs-hex_encode bs h.1,
  byte_of_digits b h.0,
)

hex_encode-is_even : (bs : Bytes) → is_even (hex_encode bs) ≡ true
unfolding hex_encode is_even
hex_encode-is_even [] = refl
hex_encode-is_even (b ∷ bs) = hex_encode-is_even bs

-- Bytes written in hexadecimal, as `M` and `P` send them, are read back as `m`, `g` and `p` do.
pub hex_decode-hex_encode : (bs : Bytes) → All IsByte bs → hex_decode (hex_encode bs) ≡ ok bs
unfolding hex_decode
hex_decode-hex_encode bs h = rw (hex_encode-is_even bs, hex_pairs-hex_encode bs h)

-- One more digit behind a number that fits.
radix_digits-concat :
    (limit acc : ℕ) (xs : Bytes) (v d : ℕ)
    → radix_digits limit acc xs ≡ some v
    → d < 16
    → v * 16 + d < limit
    → radix_digits limit acc (xs ++ hex_digit d ∷ []) ≡ some (v * 16 + d)
unfolding radix_digits
radix_digits-concat limit acc [] v d e h lt =
    let q : acc ≡ v = some-injective _ _ e in ground (arith, to_digit-hex_digit d h)
radix_digits-concat limit acc (c ∷ cs) v d e h lt = elim (Option-cases (to_digit c)) [
  | inl q ↦ ground arith
  | inr (k, q) ↦ elim (Bool-cases (ltb (acc * 16 + k) limit)) [
    | inl t ↦ ground (arith, radix_digits-concat limit (acc * 16 + k) cs v d)
    | inr t ↦ ground arith
  ]
]

radix_digits-hex_digit :
    (limit n : ℕ) → n < 16 → n < limit → radix_digits limit 0 (hex_digit n ∷ []) ≡ some n
radix_digits-hex_digit limit n h lt =
    ground (arith, radix_digits-concat limit 0 [] 0 n (unfold radix_digits in refl))

-- The digits of a number that has at most `fuel + 1` of them.
radix_digits-hex_from :
    (limit fuel n : ℕ)
    → n < 16 ^ suc fuel
    → n < limit
    → radix_digits limit 0 (hex_from fuel n) ≡ some n
unfolding hex_from
radix_digits-hex_from limit zero n h lt =
    let q : n % 16 ≡ n = omega arith in rw q (radix_digits-hex_digit limit n h lt)
radix_digits-hex_from limit (suc fuel) n h lt = elim (Bool-cases (ltb n 16)) [
  | inl t ↦ rw t (radix_digits-hex_digit limit n (ltb→lt n 16 t) lt)
  | inr t ↦ rw t (
      radix_digits-concat limit 0 (hex_from fuel (n / 16)) (n / 16) (n % 16)
        (radix_digits-hex_from limit fuel (n / 16) (omega (arith, pow-suc 16 (suc fuel)))
          (omega arith))
        (omega arith) (omega arith)
      ∙ ap some (let q : n / 16 * 16 + n % 16 ≡ n = omega arith in q))
]

-- The first of several digits is none of the signs.
abbrev Unsigned : Bytes → Type 0
Unsigned [] = ⊥
Unsigned (c ∷ cs) = (c == b'+') ≡ false

hex_from-Unsigned : (fuel n : ℕ) → Unsigned (hex_from fuel n)
unfolding hex_from
hex_from-Unsigned zero n = hex_digit_ne_plus (n % 16) (omega arith)
hex_from-Unsigned (suc fuel) n = elim (Bool-cases (ltb n 16)) [
  | inl t ↦ rw t (hex_digit_ne_plus n (ltb→lt n 16 t))
  | inr t ↦ rw t (front (hex_from fuel (n / 16)) (hex_from-Unsigned fuel (n / 16)))
]
  where
    front : (xs : Bytes) → Unsigned xs → Unsigned (xs ++ hex_digit (n % 16) ∷ [])
    front [] u = absurd u
    front (c ∷ cs) u = u

from_str_radix-Unsigned :
    (limit : ℕ) (s : Bytes) → Unsigned s → from_str_radix limit s ≡ radix_digits limit 0 s
unfolding from_str_radix
from_str_radix-Unsigned limit [] u = absurd u
from_str_radix-Unsigned limit (c ∷ []) u = rw u
from_str_radix-Unsigned limit (c ∷ d ∷ cs) u = rw u

pub from_str_radix-lower_hex : (n : ℕ) → n < 2 ^ 64 → from_str_radix (2 ^ 64) (lower_hex n) ≡ some n
unfolding lower_hex
from_str_radix-lower_hex n h =
    from_str_radix-Unsigned (2 ^ 64) (hex_from 15 n) (hex_from-Unsigned 15 n)
    ∙ radix_digits-hex_from (2 ^ 64) 15 n h h

-- A `u64` written by `{:x}` is read back: addresses, sizes and thread ids survive the wire.
parse_u64_hex-lower_hex : (n : ℕ) → n < 2 ^ 64 → parse_u64_hex (lower_hex n) ≡ ok n
unfolding parse_u64_hex
parse_u64_hex-lower_hex n h = rw (from_str_radix-lower_hex n h, parse_u64_hex)
