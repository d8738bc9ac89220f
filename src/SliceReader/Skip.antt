-- ===== src/SliceReader/Skip.antt =====
-- `skip_leb128` of src/dwarf.rs against a count that goes byte by byte.
use nnd.Base.{
  All-take, ℕ, zero, suc, ◌+◌, ◌*◌, ◌/◌, ◌<◌, ◌≤◌, ◌≡◌, refl, ap, Bool, true, false, ltb, ◌==◌, inl,
  inr, if◌then◌else◌, [], ◌∷◌, Option, none, some, ◌>>=◌, Bytes, IsByte, All, length, take, drop,
  arith, dec_lt, All-get, Bool-cases, Option-cases, some-injective,
}
use nnd.SliceReader.{
  SliceReader, at_eof, advance, le_word, finish_leb128, leb128_bytes, skipped_bytes, skip_leb128,
}
use nnd.SliceReader.Words.{le, le_word_read, TenBytes, ten, TenBytes-of}
use nnd.SliceReader.Stops.{before_stop, leb128_bytes-before_stop}

-- How many bytes a LEB128 number of at most so many bytes takes; the last of them may say that
-- the number goes on.
unfoldable pub leb128_length : ℕ → Bytes → Option ℕ
leb128_length zero bs = some 0
leb128_length (suc k) [] = none
leb128_length (suc k) (b ∷ bs) =
    if ltb b 128 then some 1 else (leb128_length k bs >>= λ c. some (suc c))

unfoldable pub skipped : SliceReader → Option ℕ → SliceReader
skipped r none = at_eof r
skipped r (some bytes) = advance bytes r

leb128_length_positive :
    (k c b : ℕ) (bs : Bytes) → leb128_length (suc k) (b ∷ bs) ≡ some c → ltb 0 c ≡ true
unfolding leb128_length
leb128_length_positive k c b bs h = elim (Bool-cases (ltb b 128)) [
  | inl e ↦
      let g : some 1 ≡ some c = rw e at h in let o : 1 ≡ c = some-injective 1 c g in ground arith
  | inr e ↦ elim (Option-cases (leb128_length k bs)) [
    | inl g ↦ let q : none ≡ some c = rw (e, g) at h in absurd cc
    | inr (d, g) ↦
        let q : some (suc d) ≡ some c = rw (e, g) at h in
        let o : suc d ≡ c = some-injective (suc d) c q in ground arith
  ]
]

-- A section that ends inside of the number has none.
leb128_length-take :
    (k n c : ℕ) (bs : Bytes)
    → leb128_length k bs ≡ some c
    → leb128_length k (take n bs) ≡ (if ltb n c then none else some c)
unfolding leb128_length
leb128_length-take zero n c bs h =
    let e : 0 ≡ c = some-injective 0 c h in let l : ltb n c ≡ false = ground arith in rw l h
leb128_length-take (suc k) n c [] h = let e : none ≡ some c = h in absurd cc
leb128_length-take (suc k) zero c (b ∷ bs) h = rw (leb128_length_positive k c b bs h) refl
leb128_length-take (suc k) (suc n) c (b ∷ bs) h = elim (Bool-cases (ltb b 128)) [
  | inl e ↦
      let g : some 1 ≡ some c = rw e at h in
      let o : 1 ≡ c = some-injective 1 c g in
      let l : ltb (suc n) c ≡ false = ground arith in rw (e, l) g
  | inr e ↦ elim (Option-cases (leb128_length k bs)) [
    | inl g ↦ let q : none ≡ some c = rw (e, g) at h in absurd cc
    | inr (d, g) ↦
        let q : some (suc d) ≡ some c = rw (e, g) at h in
        let o : suc d ≡ c = some-injective (suc d) c q in
        let l : ltb (suc n) c ≡ ltb n d = ground arith in
        rw (e, leb128_length-take k n d bs g, l) (later (ltb n d) d c q)
  ]
]
  where
    later :
        (x : Bool) (d c : ℕ)
        → some (suc d) ≡ some c
        → ((if x then none else some d) >>= λ z. some (suc z)) ≡ (if x then none else some c)
    later true d c q = refl
    later false d c q = q

-- A number that ends within the first bytes.
length-before_stop :
    (m k : ℕ) (p : Bytes)
    → m ≤ k
    → before_stop (take m p) < m
    → m ≤ length p
    → leb128_length k p ≡ some (before_stop (take m p) + 1)
unfolding leb128_length before_stop
length-before_stop zero k p le h long = absurd (omega arith)
length-before_stop (suc m) zero p le h long = absurd (omega arith)
length-before_stop (suc m) (suc k) [] le h long = absurd (omega arith)
length-before_stop (suc m) (suc k) (b ∷ p) le h long = elim (Bool-cases (ltb b 128)) [
  | inl e ↦ rw e refl
  | inr e ↦
      let g : suc (before_stop (take m p)) < suc m = rw e at h in
      let i = length-before_stop m k p (omega arith) (omega arith) (omega arith) in
      let o : suc (before_stop (take m p)) + 1 ≡ suc (before_stop (take m p) + 1) = omega arith in
      rw (e, i, o) refl
]

-- A number that goes on behind them.
length-drop :
    (m k c : ℕ) (p : Bytes)
    → before_stop (take m p) ≡ m
    → m ≤ length p
    → leb128_length k (drop m p) ≡ some c
    → leb128_length (m + k) p ≡ some (m + c)
unfolding leb128_length before_stop
length-drop zero k c p h long g =
    let e : 0 + k ≡ k = omega arith in let f : 0 + c ≡ c = omega arith in rw (e, f) g
length-drop (suc m) k c [] h long g = absurd (omega arith)
length-drop (suc m) k c (b ∷ p) h long g = elim (Bool-cases (ltb b 128)) [
  | inl e ↦ let z : 0 ≡ suc m = rw e at h in absurd (omega arith)
  | inr e ↦
      let z : suc (before_stop (take m p)) ≡ suc m = rw e at h in
      let i = length-drop m k c p (omega arith) (omega arith) g in
      let o : suc m + k ≡ suc (m + k) = omega arith in
      let q : suc m + c ≡ suc (m + c) = omega arith in rw (o, q, leb128_length, e, i) refl
]

before_stop-length : (bs : Bytes) → before_stop bs ≤ length bs
unfolding before_stop
before_stop-length [] = omega arith
before_stop-length (b ∷ bs) = ground (arith, before_stop-length bs)

-- The ninth and the tenth byte.
last_two :
    (b8 b9 : ℕ) (rest : Bytes) → b8 < 256 → leb128_length 2 (b8 ∷ b9 ∷ rest) ≡ some (1 + b8 / 128)
unfolding leb128_length
last_two b8 b9 rest h = elim (Bool-cases (ltb b8 128)) [
  | inl e ↦ let z : b8 / 128 ≡ 0 = ground (arith, e) in rw (e, z) refl
  | inr e ↦
      let z : b8 / 128 ≡ 1 = ground (arith, e) in
      elim (Bool-cases (ltb b9 128)) [ inl f ↦ rw (e, f, z) refl | inr f ↦ rw (e, f, z) refl ]
]

-- What the code counts is the length of the number.
counted :
    (b0 b1 b2 b3 b4 b5 b6 b7 b8 b9 : ℕ) (rest : Bytes)
    → (let p = b0 ∷ b1 ∷ b2 ∷ b3 ∷ b4 ∷ b5 ∷ b6 ∷ b7 ∷ b8 ∷ b9 ∷ rest in
        All IsByte p
        → (c : ℕ) × (skipped_bytes (leb128_bytes (le (take 8 p))) p ≡ some c)
          × (leb128_length 10 p ≡ some c))
unfolding skipped_bytes le_word
counted b0 b1 b2 b3 b4 b5 b6 b7 b8 b9 rest h =
    let bs = b0 ∷ b1 ∷ b2 ∷ b3 ∷ b4 ∷ b5 ∷ b6 ∷ b7 ∷ [] in
    let p = b0 ∷ b1 ∷ b2 ∷ b3 ∷ b4 ∷ b5 ∷ b6 ∷ b7 ∷ b8 ∷ b9 ∷ rest in
    let n = leb128_bytes-before_stop bs (All-take IsByte 8 p h) refl refl in
    elim (dec_lt (before_stop bs) 8) [
      | yes y ↦
          let t : (before_stop bs + 1 == 9) ≡ false = ground arith in
          rw (n, t)
            (before_stop bs + 1, refl, length-before_stop 8 10 p (omega arith) y (omega arith))
      | no m ↦
          let e : before_stop bs ≡ 8 = omega (arith, before_stop-length bs) in
          let t : (8 + 1 == 9) ≡ true = refl in
          let z : b8 + 256 * 0 ≡ b8 = omega arith in
          let w : 9 + b8 / 128 ≡ 8 + (1 + b8 / 128) = omega arith in
          rw (n, e, z)
            (
              9 + b8 / 128,
              refl,
              rw w (
                  length-drop 8 2 (1 + b8 / 128) p e (omega arith)
                    (last_two b8 b9 rest (All-get IsByte p 8 h refl))),
            )
    ]

by_bytes :
    {p : Bytes}
    → TenBytes p
    → All IsByte p
    → (c : ℕ) × (skipped_bytes (leb128_bytes (le (take 8 p))) p ≡ some c)
      × (leb128_length 10 p ≡ some c)
by_bytes (ten b0 b1 b2 b3 b4 b5 b6 b7 b8 b9 rest) h = counted b0 b1 b2 b3 b4 b5 b6 b7 b8 b9 rest h

finished :
    (r : SliceReader) (p : Bytes) (c : ℕ)
    → leb128_length 10 p ≡ some c
    → (finish_leb128 c 0 r).1 ≡ skipped r (leb128_length 10 (take r.n p))
unfolding finish_leb128 skipped
finished r p c h = elim (Bool-cases (ltb r.n c)) [
  | inl e ↦ rw (leb128_length-take 10 r.n c p h, e) refl
  | inr e ↦ rw (leb128_length-take 10 r.n c p h, e) refl
]

-- With at least ten readable bytes from the reader on, skip_leb128 passes over as many bytes as a
-- count byte by byte gives, where the tenth byte ends a number in any case. Where the section is
-- too short for them the reader is at its end, with the mark of an unexpected end.
pub skip_leb128-skipped :
    (r : SliceReader)
    → All IsByte r.p
    → 10 ≤ length r.p
    → skip_leb128 r ≡ some (skipped r (leb128_length 10 (take r.n r.p)))
unfolding skip_leb128
skip_leb128-skipped r bytes long =
    let f = by_bytes (TenBytes-of r.p long) bytes in
    rw (le_word_read 8 r.p (omega arith), f.1) (ap some (finished r r.p f.0 f.2))
