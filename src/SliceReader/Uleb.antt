-- ===== src/SliceReader/Uleb.antt =====
-- The LEB128 format that src/dwarf.rs reads, byte by byte, and what a short section does to it.
use nnd.Base.{
  ℕ, zero, suc, ◌+◌, ◌*◌, ◌%◌, ◌<◌, ◌≤◌, ◌≡◌, refl, subst, Bool, true, false, ltb, [], ◌∷◌, Option,
  none, some, ◌>>=◌, inl, inr, Bytes, take, arith, if◌then◌else◌, Bool-cases, Option-cases,
  some-injective,
}
use nnd.SliceReader.{SliceReader, at_eof, advance, finish_leb128, usize_max}

-- A byte in front of a number.
abbrev longer : ℕ → ℕ × ℕ → ℕ × ℕ
longer b (bytes, v) = (suc bytes, b % 128 + 128 * v)

-- An unsigned LEB128 number of at most so many bytes: how many it takes, and its value.
unfoldable pub uleb128 : ℕ → Bytes → Option (ℕ × ℕ)
uleb128 zero bs = none
uleb128 (suc k) [] = none
uleb128 (suc k) (b ∷ bs) =
    if ltb b 128 then some (1, b) else uleb128 k bs >>= λ r. some (longer b r)

-- What a read of a number below a limit gives.
unfoldable pub decoded : (limit : ℕ) → SliceReader → Option (ℕ × ℕ) → ℕ × SliceReader
decoded limit r none = (0, at_eof r)
decoded limit r (some (bytes, v)) = if ltb v limit then (v, advance bytes r) else (0, at_eof r)

uleb128_positive : (k : ℕ) (bs : Bytes) (w : ℕ × ℕ) → uleb128 k bs ≡ some w → ltb 0 w.0 ≡ true
unfolding uleb128
uleb128_positive zero bs w h = absurd cc
uleb128_positive (suc k) [] w h = absurd cc
uleb128_positive (suc k) (b ∷ bs) w h = elim (Bool-cases (ltb b 128)) [
  | inl e ↦
      let g : some (1, b) ≡ some w = rw e at h in
      subst (λ z. ltb 0 z.0 ≡ true) (some-injective (1, b) w g) refl
  | inr e ↦ elim (Option-cases (uleb128 k bs)) [
    | inl g ↦ let q : none ≡ some w = rw (e, g) at h in absurd cc
    | inr (r, g) ↦
        let q : some (longer b r) ≡ some w = rw (e, g) at h in
        subst (λ z. ltb 0 z.0 ≡ true) (some-injective _ w q) (ground arith)
  ]
]

-- A section that ends inside of the number has none.
pub uleb128-take :
    (k n : ℕ) (bs : Bytes) (w : ℕ × ℕ)
    → uleb128 k bs ≡ some w
    → uleb128 k (take n bs) ≡ (if ltb n w.0 then none else some w)
unfolding uleb128
uleb128-take zero n bs w h = absurd cc
uleb128-take (suc k) n [] w h = absurd cc
uleb128-take (suc k) zero (b ∷ bs) w h = rw (uleb128_positive (suc k) (b ∷ bs) w h) refl
uleb128-take (suc k) (suc n) (b ∷ bs) w h = elim (Bool-cases (ltb b 128)) [
  | inl e ↦
      let g : some (1, b) ≡ some w = rw e at h in
      let l : ltb (suc n) 1 ≡ false = ground arith in
      subst
        (λ z. uleb128 (suc k) (take (suc n) (b ∷ bs)) ≡ (if ltb (suc n) z.0 then none else some z))
        (some-injective (1, b) w g) (rw (e, l) refl)
  | inr e ↦ elim (Option-cases (uleb128 k bs)) [
    | inl g ↦ let q : none ≡ some w = rw (e, g) at h in absurd cc
    | inr (r, g) ↦
        let q : some (longer b r) ≡ some w = rw (e, g) at h in
        let t = uleb128-take k n bs r g in
        subst
          (λ z.
            uleb128 (suc k) (take (suc n) (b ∷ bs)) ≡ (if ltb (suc n) z.0 then none else some z))
          (some-injective _ w q)
          (rw (e, t) (shifted (ltb n r.0) (ltb (suc n) (suc r.0)) b r (ground arith)))
  ]
]
  where
    shifted :
        (x y : Bool) (b : ℕ) (r : ℕ × ℕ)
        → x ≡ y
        → (if x then none else some r) >>= (λ z. some (longer b z))
          ≡ (if y then none else some (longer b r))
    shifted true true b r h = refl
    shifted true false b r h = absurd cc
    shifted false true b r h = absurd cc
    shifted false false b r h = refl

-- A number without an end in the memory has none in the section.
pub uleb128-take-none : (k n : ℕ) (bs : Bytes) → uleb128 k bs ≡ none → uleb128 k (take n bs) ≡ none
unfolding uleb128
uleb128-take-none zero n bs h = refl
uleb128-take-none (suc k) zero bs h = refl
uleb128-take-none (suc k) (suc n) [] h = refl
uleb128-take-none (suc k) (suc n) (b ∷ bs) h = elim (Bool-cases (ltb b 128)) [
  | inl e ↦ let g : some (1, b) ≡ none = rw e at h in absurd cc
  | inr e ↦ elim (Option-cases (uleb128 k bs)) [
    | inl g ↦ rw (e, uleb128-take-none k n bs g) refl
    | inr (r, g) ↦ let q : some (longer b r) ≡ none = rw (e, g) at h in absurd cc
  ]
]

-- The end of a read that found the number, and of one that found it too large or without an end.
pub finish_leb128_found :
    (limit : ℕ) (r : SliceReader) (k c v : ℕ) (bs : Bytes)
    → uleb128 k bs ≡ some (c, v)
    → v < limit
    → finish_leb128 c v r ≡ decoded limit r (uleb128 k (take r.n bs))
unfolding finish_leb128 decoded
finish_leb128_found limit r k c v bs h lt =
    let l : ltb v limit ≡ true = ground arith in
    elim (Bool-cases (ltb r.n c)) [
      | inl e ↦ rw (uleb128-take k r.n bs (c, v) h, e) refl
      | inr e ↦ rw (uleb128-take k r.n bs (c, v) h, e, l) refl
    ]

pub finish_leb128_large :
    (limit : ℕ) (r : SliceReader) (k c v res : ℕ) (bs : Bytes)
    → uleb128 k bs ≡ some (c, v)
    → limit ≤ v
    → r.n < usize_max
    → finish_leb128 usize_max res r ≡ decoded limit r (uleb128 k (take r.n bs))
unfolding finish_leb128 decoded
finish_leb128_large limit r k c v res bs h le small =
    let s : ltb r.n usize_max ≡ true = ground arith in
    let l : ltb v limit ≡ false = ground arith in
    elim (Bool-cases (ltb r.n c)) [
      | inl e ↦ rw (s, uleb128-take k r.n bs (c, v) h, e) refl
      | inr e ↦ rw (s, uleb128-take k r.n bs (c, v) h, e, l) refl
    ]

pub finish_leb128_endless :
    (limit : ℕ) (r : SliceReader) (k res : ℕ) (bs : Bytes)
    → uleb128 k bs ≡ none
    → r.n < usize_max
    → finish_leb128 usize_max res r ≡ decoded limit r (uleb128 k (take r.n bs))
unfolding finish_leb128 decoded
finish_leb128_endless limit r k res bs h small =
    let s : ltb r.n usize_max ≡ true = ground arith in rw (s, uleb128-take-none k r.n bs h) refl
