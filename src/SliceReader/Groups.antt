-- ===== src/SliceReader/Groups.antt =====
-- The masks of `read_leb128_or_zero` in src/dwarf.rs on a chunk of eight bytes: the low seven bits
-- of some bytes, or their highest bits.
use nnd.Base.{
  ℕ, ◌+◌, ◌*◌, ◌/◌, ◌%◌, ◌^◌, ◌<◌, ◌≡◌, refl, ap, ◌∙◌, List, [], ◌∷◌, Bytes, IsByte, All, map,
  arith, bit_and, bit_or, bit_or_disjoint, and_none,
}
use nnd.SliceReader.Words.{le, masked, bit_and-le, bit_and_low, bit_and_high}

-- What a mask keeps of a byte.
pub data Keep : Type 0 where
  off : Keep
  low : Keep
  high : Keep

abbrev mask_byte : Keep → ℕ
mask_byte off = 0
mask_byte low = 0x7f
mask_byte high = 0x80

abbrev pub kept_byte : ℕ → Keep → ℕ
kept_byte b off = 0
kept_byte b low = b % 128
kept_byte b high = b / 128 * 128

abbrev pub kept : Bytes → List Keep → Bytes
kept [] ks = []
kept (b ∷ bs) [] = []
kept (b ∷ bs) (k ∷ ks) = kept_byte b k ∷ kept bs ks

bit_and-mask_byte : (b : ℕ) (k : Keep) → b < 256 → bit_and b (mask_byte k) ≡ kept_byte b k
bit_and-mask_byte b off h = and_none b
bit_and-mask_byte b low h = bit_and_low b h
bit_and-mask_byte b high h = bit_and_high b h

mask_byte-IsByte : (k : Keep) → IsByte (mask_byte k)
mask_byte-IsByte off = omega arith
mask_byte-IsByte low = omega arith
mask_byte-IsByte high = omega arith

All-mask_byte : (ks : List Keep) → All IsByte (map mask_byte ks)
All-mask_byte [] = tt
All-mask_byte (k ∷ ks) = (mask_byte-IsByte k, All-mask_byte ks)

masked-kept :
    (bs : Bytes) (ks : List Keep) → All IsByte bs → masked bs (map mask_byte ks) ≡ kept bs ks
masked-kept [] ks h = refl
masked-kept (b ∷ bs) [] h = refl
masked-kept (b ∷ bs) (k ∷ ks) h = rw (bit_and-mask_byte b k h.0, masked-kept bs ks h.1) refl

pub keeps :
    (bs : Bytes) (ks : List Keep)
    → All IsByte bs
    → bit_and (le bs) (le (map mask_byte ks)) ≡ le (kept bs ks)
keeps bs ks h = bit_and-le bs (map mask_byte ks) h (All-mask_byte ks) ∙ ap le (masked-kept bs ks h)

module _ (b0 b1 b2 b3 b4 b5 b6 b7 : ℕ)
    (h : All IsByte (b0 ∷ b1 ∷ b2 ∷ b3 ∷ b4 ∷ b5 ∷ b6 ∷ b7 ∷ [])) where
  abbrev pub eight : Bytes
  eight = b0 ∷ b1 ∷ b2 ∷ b3 ∷ b4 ∷ b5 ∷ b6 ∷ b7 ∷ []

  pub one_high : bit_and (le eight) 0x80 ≡ le (kept eight (high ∷ []))
  one_high = keeps eight (high ∷ []) h

  pub five_highs :
      bit_and (le eight) 0x8080808080 ≡ le (kept eight (high ∷ high ∷ high ∷ high ∷ high ∷ []))
  five_highs = keeps eight (high ∷ high ∷ high ∷ high ∷ high ∷ []) h

  pub eight_highs :
      bit_and (le eight) 0x8080808080808080
      ≡ le (kept eight (high ∷ high ∷ high ∷ high ∷ high ∷ high ∷ high ∷ high ∷ []))
  eight_highs = keeps eight (high ∷ high ∷ high ∷ high ∷ high ∷ high ∷ high ∷ high ∷ []) h

  pub second_high : bit_and (le eight) 0x8000 ≡ le (kept eight (off ∷ high ∷ []))
  second_high = keeps eight (off ∷ high ∷ []) h

  pub third_high : bit_and (le eight) 0x808000 ≡ le (kept eight (off ∷ high ∷ high ∷ []))
  third_high = keeps eight (off ∷ high ∷ high ∷ []) h

  pub fourth_high : bit_and (le eight) 0x80808000 ≡ le (kept eight (off ∷ high ∷ high ∷ high ∷ []))
  fourth_high = keeps eight (off ∷ high ∷ high ∷ high ∷ []) h

  pub low_0 : bit_and (le eight) 0x7f ≡ b0 % 128
  low_0 = keeps eight (low ∷ []) h ∙ omega arith

  low_1 : bit_and (le eight) 0x7f00 / 2 ≡ 2 ^ 7 * (b1 % 128)
  low_1 = ap (λ z. z / 2) (keeps eight (off ∷ low ∷ []) h) ∙ omega arith

  low_2 : bit_and (le eight) 0x7f0000 / 4 ≡ 2 ^ 14 * (b2 % 128)
  low_2 = ap (λ z. z / 4) (keeps eight (off ∷ off ∷ low ∷ []) h) ∙ omega arith

  low_3 : bit_and (le eight) 0x7f000000 / 8 ≡ 2 ^ 21 * (b3 % 128)
  low_3 = ap (λ z. z / 8) (keeps eight (off ∷ off ∷ off ∷ low ∷ []) h) ∙ omega arith

  low_4 : bit_and (le eight) 0x7f00000000 / 16 ≡ 2 ^ 28 * (b4 % 128)
  low_4 = ap (λ z. z / 16) (keeps eight (off ∷ off ∷ off ∷ off ∷ low ∷ []) h) ∙ omega arith

  -- Two, three, four and five groups.
  abbrev pub sum_2 : ℕ
  sum_2 = b0 % 128 + 2 ^ 7 * (b1 % 128)

  abbrev pub sum_3 : ℕ
  sum_3 = sum_2 + 2 ^ 14 * (b2 % 128)

  abbrev pub sum_4 : ℕ
  sum_4 = sum_3 + 2 ^ 21 * (b3 % 128)

  abbrev pub sum_5 : ℕ
  sum_5 = sum_4 + 2 ^ 28 * (b4 % 128)

  pub or_2 : bit_or (bit_and (le eight) 0x7f) (bit_and (le eight) 0x7f00 / 2) ≡ sum_2
  or_2 = rw (low_0, low_1) (bit_or_disjoint 7 (b0 % 128) (b1 % 128) (omega arith))

  pub or_3 : bit_or sum_2 (bit_and (le eight) 0x7f0000 / 4) ≡ sum_3
  or_3 = rw low_2 (bit_or_disjoint 14 sum_2 (b2 % 128) (omega arith))

  pub or_4 : bit_or sum_3 (bit_and (le eight) 0x7f000000 / 8) ≡ sum_4
  or_4 = rw low_3 (bit_or_disjoint 21 sum_3 (b3 % 128) (omega arith))

  pub or_5 : bit_or sum_4 (bit_and (le eight) 0x7f00000000 / 16) ≡ sum_5
  or_5 = rw low_4 (bit_or_disjoint 28 sum_4 (b4 % 128) (omega arith))
