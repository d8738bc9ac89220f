-- ===== src/SliceReader/Stops.antt =====
-- How `skip_leb128` and `read_leb128_or_zero` of src/dwarf.rs count the bytes of a number: the zeros
-- at the end of the inverted and masked chunk are those of the bytes before the last one.
use nnd.Base.{
  ℕ, zero, suc, ◌+◌, ◌-◌, ◌*◌, ◌/◌, ◌%◌, ◌^◌, ◌≡◌, refl, ap, sym, subst, ◌∙◌, ltb, [], ◌∷◌, inl,
  inr, Bytes, IsByte, All, length, map, arith, bit_and, if◌then◌else◌, Bool-cases,
}
use nnd.SliceReader.{trailing_zeros, leb128_bytes}
use nnd.SliceReader.Words.{le, masked, bit_and-le, bit_and_high}

trailing_zeros_times :
    (k bits y : ℕ) → trailing_zeros (k + bits) (2 ^ k * y) ≡ k + trailing_zeros bits y
unfolding trailing_zeros
trailing_zeros_times zero bits y =
    let e : 1 * y ≡ y = omega arith in
    let f : 0 + bits ≡ bits = omega arith in let m : 2 ^ 0 ≡ 1 = refl in rw (m, e, f) (omega arith)
trailing_zeros_times (suc k) bits y =
    let m : 2 ^ suc k ≡ 2 * 2 ^ k = omega arith in
    let e : 2 * 2 ^ k * y ≡ 2 * (2 ^ k * y) = grind arith in
    let f : suc k + bits ≡ suc (k + bits) = omega arith in
    let even : 2 * (2 ^ k * y) % 2 ≡ 0 = omega arith in
    let half : 2 * (2 ^ k * y) / 2 ≡ 2 ^ k * y = omega arith in
    rw (m, e, f, trailing_zeros, even, half, trailing_zeros_times k bits y) (omega arith)

-- The bit of a byte that is the last of a number, in an inverted chunk.
abbrev stop : ℕ → ℕ
stop b = (255 - b) / 128 * 128

-- The number of bytes before one that is the last of a number.
unfoldable pub before_stop : Bytes → ℕ
before_stop [] = 0
before_stop (b ∷ bs) = let more = suc (before_stop bs) in if ltb b 128 then 0 else more

trailing_zeros-stop :
    (bs : Bytes)
    → All IsByte bs
    → trailing_zeros (8 * length bs) (le (map stop bs)) / 8 ≡ before_stop bs
unfolding trailing_zeros before_stop
trailing_zeros-stop [] h = refl
trailing_zeros-stop (b ∷ bs) h = elim (Bool-cases (ltb b 128)) [
  | inl e ↦
      let y = le (map stop bs) in
      let s : stop b ≡ 128 = ground (arith, e, h.0) in
      let x : 128 + 256 * y ≡ 128 * (1 + 2 * y) = omega arith in
      let n : 8 * suc (length bs) ≡ 7 + suc (8 * length bs) = omega arith in
      let t = trailing_zeros_times 7 (suc (8 * length bs)) (1 + 2 * y) in
      let odd : (1 + 2 * y) % 2 ≡ 1 = omega arith in
      let u : trailing_zeros (suc (8 * length bs)) (1 + 2 * y) ≡ 0 =
        rw (trailing_zeros, odd) refl in
      rw (e, s, x, n, t, u) refl
  | inr e ↦
      let y = le (map stop bs) in
      let s : stop b ≡ 0 = ground (arith, e, h.0) in
      let x : 0 + 256 * y ≡ 256 * y = omega arith in
      let n : 8 * suc (length bs) ≡ 8 + 8 * length bs = omega arith in
      let t = trailing_zeros_times 8 (8 * length bs) y in
      rw (e, s, x, n, t) (omega (arith, trailing_zeros-stop bs h.1))
]

abbrev highs : ℕ → Bytes
highs zero = []
highs (suc k) = 0x80 ∷ highs k

abbrev inverted : Bytes → Bytes
inverted bs = map (λ b. 255 - b) bs

-- How many numbers so many bytes have.
abbrev pub room : Bytes → ℕ
room [] = 1
room (b ∷ bs) = 256 * room bs

le-inverted : (bs : Bytes) → All IsByte bs → le (inverted bs) + le bs + 1 ≡ room bs
le-inverted [] h = refl
le-inverted (b ∷ bs) h = omega (arith, le-inverted bs h.1, h.0)

All-inverted : (bs : Bytes) → All IsByte (inverted bs)
All-inverted [] = tt
All-inverted (b ∷ bs) = (omega arith, All-inverted bs)

All-highs : (k : ℕ) → All IsByte (highs k)
All-highs zero = tt
All-highs (suc k) = (omega arith, All-highs k)

masked-highs : (bs : Bytes) → masked (inverted bs) (highs (length bs)) ≡ map stop bs
masked-highs [] = refl
masked-highs (b ∷ bs) = rw (bit_and_high (255 - b) (omega arith), masked-highs bs) refl

leb128_bytes-masked :
    (chunk x : ℕ)
    → bit_and (2 ^ 64 - 1 - chunk) 0x8080808080808080 ≡ x
    → leb128_bytes chunk ≡ trailing_zeros 64 x / 8 + 1
unfolding leb128_bytes
leb128_bytes-masked chunk x e = ap (λ z. trailing_zeros 64 z / 8 + 1) e

inverted_chunk :
    (bs : Bytes) (chunk : ℕ)
    → All IsByte bs
    → le bs ≡ chunk
    → room bs ≡ 2 ^ 64
    → 2 ^ 64 - 1 - chunk ≡ le (inverted bs)
inverted_chunk bs chunk h e r = omega (arith, le-inverted bs h, e, r)

-- The count on a chunk of eight bytes.
pub leb128_bytes-before_stop :
    (bs : Bytes)
    → All IsByte bs
    → room bs ≡ 2 ^ 64
    → length bs ≡ 8
    → leb128_bytes (le bs) ≡ before_stop bs + 1
leb128_bytes-before_stop bs h r n =
    let m : bit_and (le (inverted bs)) (le (highs (length bs))) ≡ le (map stop bs) =
      bit_and-le (inverted bs) (highs (length bs)) (All-inverted bs) (All-highs (length bs))
      ∙ ap le (masked-highs bs) in
    let k : bit_and (2 ^ 64 - 1 - le bs) 0x8080808080808080 ≡ le (map stop bs) =
      ap (λ z. bit_and z 0x8080808080808080) (inverted_chunk bs (le bs) h refl r)
      ∙ ap (λ z. bit_and (le (inverted bs)) (le (highs z))) (sym n)
      ∙ m in
    let t : trailing_zeros 64 (le (map stop bs)) / 8 ≡ before_stop bs =
      subst (λ z. trailing_zeros (8 * z) (le (map stop bs)) / 8 ≡ before_stop bs) n
        (trailing_zeros-stop bs h) in
    leb128_bytes-masked (le bs) (le (map stop bs)) k ∙ ap (λ z. z + 1) t
