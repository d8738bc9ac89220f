-- ===== src/SliceReader/Many.antt =====
-- The branch for 9 and 10 bytes of `read_leb128_or_zero` in src/dwarf.rs, for unsigned numbers.
use nnd.Base.{
  ℕ, ◌+◌, ◌-◌, ◌*◌, ◌/◌, ◌%◌, ◌^◌, ◌<◌, ◌≤◌, ◌≡◌, refl, ap, ◌∙◌, true, false, ◌==◌, [], ◌∷◌, arith,
  bit_and, bit_or, bit_or_disjoint, bit_or_split, bit_or_ones, bit_and_split, bit_and_ones,
  and_none, zero_and, or_none, dec_lt, all_below, all_below_sound, ==_iff,
}
use nnd.SliceReader.{many_bytes, usize_max}
use nnd.SliceReader.Words.{le, bit_and-le, bit_and_high}

bit_and_upper_test : all_below 256 (λ b. bit_and b 0xfe == b / 2 * 2) ≡ true
unfolding all_below
bit_and_upper_test = refl

bit_and_upper : (b : ℕ) → b < 256 → bit_and b 0xfe ≡ b / 2 * 2
bit_and_upper b h =
    (==_iff (bit_and b 0xfe) (b / 2 * 2)).0
      (all_below_sound 256 (λ b. bit_and b 0xfe == b / 2 * 2) b bit_and_upper_test h)

module _ (x b8 b9 : ℕ) (small : x < 2 ^ 56) (h8 : b8 < 256) (h9 : b9 < 256) where
  abbrev behind : ℕ
  behind = le (b8 ∷ b9 ∷ [])

  goes_on : bit_and behind 0x80 ≡ b8 / 128 * 128
  goes_on =
      let m : bit_and behind 0x80 ≡ bit_and b8 0x80 + 256 * 0 =
        bit_and-le (b8 ∷ b9 ∷ []) (0x80 ∷ []) (h8, (h9, tt)) (omega arith) in
      omega (arith, m, bit_and_high b8 h8)

  over : bit_and behind 0xfe00 ≡ 256 * (b9 / 2 * 2)
  over =
      let m : bit_and behind 0xfe00 ≡ bit_and b8 0 + 256 * (bit_and b9 0xfe + 256 * 0) =
        bit_and-le (b8 ∷ b9 ∷ []) (0 ∷ 0xfe ∷ []) (h8, (h9, tt)) (omega arith) in
      omega (arith, m, and_none b8, bit_and_upper b9 h9)

  last_bit : bit_and (behind / 128) 1 ≡ b8 / 128
  last_bit =
      let e : behind / 128 ≡ b8 / 128 + 2 ^ 1 * b9 = omega arith in
      let s = bit_and_split 1 (b8 / 128) 1 b9 0 (omega arith) (omega arith) in
      let z : 1 + 2 ^ 1 * 0 ≡ 1 = refl in
      let t : bit_and (b8 / 128 + 2 ^ 1 * b9) 1 ≡ bit_and (b8 / 128) 1 + 2 ^ 1 * bit_and b9 0 =
        rw z at s in
      let o : bit_and (b8 / 128) 1 ≡ b8 / 128 = bit_and_ones 1 (b8 / 128) (omega arith) in
      rw e (omega (arith, t, o, and_none b9))

  whole : bit_or x (behind * 2 ^ 56 % 2 ^ 64) ≡ x + 2 ^ 56 * b8
  whole =
      let e : behind * 2 ^ 56 % 2 ^ 64 ≡ 2 ^ 56 * b8 = omega arith in
      rw e (bit_or_disjoint 56 x b8 small)

  mask : bit_or (behind * 2 ^ 55 % 2 ^ 64) 0x7fffffffffffffff ≡ 2 ^ 63 - 1 + 2 ^ 63 * (b9 % 2)
  mask =
      let e : behind * 2 ^ 55 % 2 ^ 64 ≡ 2 ^ 55 * b8 + 2 ^ 63 * (b9 % 2) = omega arith in
      let s = bit_or_split 63 (2 ^ 55 * b8) (2 ^ 63 - 1) (b9 % 2) 0 (omega arith) (omega arith) in
      let o = bit_or_ones 63 (2 ^ 55 * b8) (omega arith) in rw e (s ∙ rw (o, or_none (b9 % 2)) refl)

  value :
      bit_and (x + 2 ^ 56 * b8) (2 ^ 63 - 1 + 2 ^ 63 * (b9 % 2))
      ≡ x + 2 ^ 56 * (b8 % 128) + 2 ^ 63 * bit_and (b8 / 128) (b9 % 2)
  value =
      let e : x + 2 ^ 56 * b8 ≡ x + 2 ^ 56 * (b8 % 128) + 2 ^ 63 * (b8 / 128) = omega arith in
      let s =
        bit_and_split 63 (x + 2 ^ 56 * (b8 % 128)) (2 ^ 63 - 1) (b8 / 128) (b9 % 2) (omega arith)
          (omega arith) in
      rw e (
        s
        ∙ ap (λ z. z + 2 ^ 63 * bit_and (b8 / 128) (b9 % 2))
            (bit_and_ones 63 (x + 2 ^ 56 * (b8 % 128)) (omega arith)))

  top_bit : 128 ≤ b8 → bit_and (b8 / 128) (b9 % 2) ≡ b9 % 2
  top_bit h =
      let e : b8 / 128 ≡ 1 = omega arith in
      rw e (elim (dec_lt (b9 % 2) 1) [
        | yes z ↦ let f : b9 % 2 ≡ 0 = omega arith in rw f refl
        | no z ↦ let f : b9 % 2 ≡ 1 = omega arith in rw f refl
      ])

  pub many_bytes_nine : b8 < 128 → many_bytes false x behind ≡ (9, x + 2 ^ 56 * b8)
  unfolding many_bytes
  many_bytes_nine h =
      let t : (bit_and behind 0x80 == 0) ≡ true = ground (arith, goes_on) in
      let z : b8 / 128 ≡ 0 = omega arith in
      let l : bit_and (behind / 128) 1 ≡ 0 = last_bit ∙ z in
      let n : bit_and (b8 / 128) (b9 % 2) ≡ 0 = rw z (zero_and (b9 % 2)) in
      let v : x + 2 ^ 56 * (b8 % 128) + 2 ^ 63 * 0 ≡ x + 2 ^ 56 * b8 = omega arith in
      rw (t, l, whole, mask, value, n, v) refl

  pub many_bytes_ten :
      128 ≤ b8 → b9 < 2 → many_bytes false x behind ≡ (10, x + 2 ^ 56 * (b8 % 128) + 2 ^ 63 * b9)
  unfolding many_bytes
  many_bytes_ten h k =
      let t : (bit_and behind 0x80 == 0) ≡ false = ground (arith, goes_on) in
      let u : (bit_and behind 0xfe00 == 0) ≡ true = ground (arith, over) in
      let z : b8 / 128 ≡ 1 = omega arith in
      let l : bit_and (behind / 128) 1 ≡ 1 = last_bit ∙ z in
      let m : b9 % 2 ≡ b9 = omega arith in
      let n : bit_and (b8 / 128) (b9 % 2) ≡ b9 = top_bit h ∙ m in
      rw (t, u, l, whole, mask, value, n) refl

  pub many_bytes_over : 128 ≤ b8 → 2 ≤ b9 → (many_bytes false x behind).0 ≡ usize_max
  unfolding many_bytes
  many_bytes_over h k =
      let t : (bit_and behind 0x80 == 0) ≡ false = ground (arith, goes_on) in
      let u : (bit_and behind 0xfe00 == 0) ≡ false = ground (arith, over) in rw (t, u) refl
