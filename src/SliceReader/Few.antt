-- ===== src/SliceReader/Few.antt =====
-- The branch for 2 to 5 bytes of `read_leb128_or_zero` in src/dwarf.rs.
use nnd.Base.{
  ℕ, ◌+◌, ◌*◌, ◌/◌, ◌^◌, ◌<◌, ◌≤◌, ◌≡◌, refl, true, false, ◌==◌, [], ◌∷◌, IsByte, All, arith,
  bit_and, ◌∙◌,
}
use nnd.SliceReader.{few_bytes}
use nnd.SliceReader.Words.{le}
use nnd.SliceReader.Groups.{
  second_high, third_high, fourth_high, sum_2, sum_3, sum_4, sum_5, or_2, or_3, or_4, or_5,
}

module _ (b0 b1 b2 b3 b4 b5 b6 b7 : ℕ)
    (h : All IsByte (b0 ∷ b1 ∷ b2 ∷ b3 ∷ b4 ∷ b5 ∷ b6 ∷ b7 ∷ [])) where
  abbrev chunk : ℕ
  chunk = le (b0 ∷ b1 ∷ b2 ∷ b3 ∷ b4 ∷ b5 ∷ b6 ∷ b7 ∷ [])

  second : bit_and chunk 0x8000 ≡ 256 * (b1 / 128 * 128)
  second = second_high b0 b1 b2 b3 b4 b5 b6 b7 h ∙ omega arith

  third : bit_and chunk 0x808000 ≡ 256 * (b1 / 128 * 128) + 65536 * (b2 / 128 * 128)
  third = third_high b0 b1 b2 b3 b4 b5 b6 b7 h ∙ omega arith

  fourth :
      bit_and chunk 0x80808000
      ≡ 256 * (b1 / 128 * 128) + 65536 * (b2 / 128 * 128) + 2 ^ 24 * (b3 / 128 * 128)
  fourth = fourth_high b0 b1 b2 b3 b4 b5 b6 b7 h ∙ omega arith

  pub few_bytes_two : b1 < 128 → few_bytes chunk ≡ (2, sum_2 b0 b1 b2 b3 b4 b5 b6 b7 h)
  unfolding few_bytes
  few_bytes_two k0 =
      let t : (bit_and chunk 0x8000 == 0) ≡ true = ground (arith, second) in
      let u : (bit_and chunk 0x808000 == 0x808000) ≡ false = ground (arith, third) in
      let v : (bit_and chunk 0x80808000 == 0x80808000) ≡ false = ground (arith, fourth) in
      rw (t, u, v, or_2 b0 b1 b2 b3 b4 b5 b6 b7 h) refl

  pub few_bytes_three : 128 ≤ b1 → b2 < 128 → few_bytes chunk ≡ (3, sum_3 b0 b1 b2 b3 b4 b5 b6 b7 h)
  unfolding few_bytes
  few_bytes_three k0 k1 =
      let t : (bit_and chunk 0x8000 == 0) ≡ false = ground (arith, second) in
      let u : (bit_and chunk 0x808000 == 0x808000) ≡ false = ground (arith, third) in
      let v : (bit_and chunk 0x80808000 == 0x80808000) ≡ false = ground (arith, fourth) in
      rw (t, u, v, or_2 b0 b1 b2 b3 b4 b5 b6 b7 h, or_3 b0 b1 b2 b3 b4 b5 b6 b7 h) refl

  pub few_bytes_four :
      128 ≤ b1 → 128 ≤ b2 → b3 < 128 → few_bytes chunk ≡ (4, sum_4 b0 b1 b2 b3 b4 b5 b6 b7 h)
  unfolding few_bytes
  few_bytes_four k0 k1 k2 =
      let t : (bit_and chunk 0x8000 == 0) ≡ false = ground (arith, second) in
      let u : (bit_and chunk 0x808000 == 0x808000) ≡ true = ground (arith, third) in
      let v : (bit_and chunk 0x80808000 == 0x80808000) ≡ false = ground (arith, fourth) in
      rw
        (
          t,
          u,
          v,
          or_2 b0 b1 b2 b3 b4 b5 b6 b7 h,
          or_3 b0 b1 b2 b3 b4 b5 b6 b7 h,
          or_4 b0 b1 b2 b3 b4 b5 b6 b7 h,
        )
        refl

  pub few_bytes_five :
      128 ≤ b1 → 128 ≤ b2 → 128 ≤ b3 → few_bytes chunk ≡ (5, sum_5 b0 b1 b2 b3 b4 b5 b6 b7 h)
  unfolding few_bytes
  few_bytes_five k0 k1 k2 =
      let t : (bit_and chunk 0x8000 == 0) ≡ false = ground (arith, second) in
      let u : (bit_and chunk 0x808000 == 0x808000) ≡ true = ground (arith, third) in
      let v : (bit_and chunk 0x80808000 == 0x80808000) ≡ true = ground (arith, fourth) in
      rw
        (
          t,
          u,
          v,
          or_2 b0 b1 b2 b3 b4 b5 b6 b7 h,
          or_3 b0 b1 b2 b3 b4 b5 b6 b7 h,
          or_4 b0 b1 b2 b3 b4 b5 b6 b7 h,
          or_5 b0 b1 b2 b3 b4 b5 b6 b7 h,
        )
        refl
