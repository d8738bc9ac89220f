-- ===== src/Search/Says.antt =====
-- What a result of `fuzzy_match` in src/search.rs says, and that its packed scores are not 0.
use nnd.Base.{
  ℕ, zero, suc, ◌+◌, ◌-◌, ◌*◌, ◌%◌, ◌^◌, ◌≤◌, ◌≡◌, refl, ap, Bool, List, [], ◌∷◌, Option, none,
  some, Bytes, length, take, drop, map, arith, length-drop, bit, bit_or, bit-bit_or,
}
use nnd.RangeIndex.{Range}
use nnd.Search.{folded, memmem, Fuzzy, packed, scored}
use nnd.Search.Spelled.{slice, spelled, Spread, IsPlaced}
use nnd.Search.Window.{memmem_found}

-- What a result says: without a score the needle is not spread over the haystack, with the score 0
-- the two are the same, and with another score the ranges, which lie in the haystack one behind
-- the other, spell the needle. Case is ignored where `case_sensitive` is false.
unfoldable pub Says : Bool → (haystack needle : Bytes) → Option ℕ → List Range → Type 0
Says b haystack needle none ranges = ¬ Spread needle (map (folded b) haystack)
Says b haystack needle (some zero) ranges = map (folded b) haystack ≡ needle
Says b haystack needle (some (suc score)) ranges =
    (spelled b haystack ranges ≡ needle) × IsPlaced 0 ranges (length haystack)

-- A set bit is left in a disjunction.
bit_left : (i a b c : ℕ) → bit i a ≡ 1 → bit i 0 ≡ 0 → ¬ (bit_or (bit_or a b) c ≡ 0)
bit_left i a b c one clear h =
    let z : bit i (bit_or (bit_or a b) c) ≡ bit i 0 = ap (bit i) h in
    omega (arith, bit-bit_or i (bit_or a b) c, bit-bit_or i a b, z, one, clear)

-- A packed score is not 0, as one of the bits of `case` is set.
pub packed_one : (extra len : ℕ) → ¬ (packed 1 extra len ≡ 0)
unfolding packed
packed_one extra len h = bit_left 61 (2 ^ 61) (extra * 2 ^ 32 % 2 ^ 64) len refl refl h

pub packed_two : (extra len : ℕ) → ¬ (packed 2 extra len ≡ 0)
unfolding packed
packed_two extra len h = bit_left 62 (2 ^ 62) (extra * 2 ^ 32 % 2 ^ 64) len refl refl h

Says-ranges :
    (b : Bool) (haystack needle : Bytes) (score : ℕ) (ranges : List Range)
    → ¬ (score ≡ 0)
    → spelled b haystack ranges ≡ needle
    → IsPlaced 0 ranges (length haystack)
    → Says b haystack needle (some score) ranges
unfolding Says
Says-ranges b hay needle zero ranges n s p = absurd (n refl)
Says-ranges b hay needle (suc k) ranges n s p = (s, p)

-- A score that is not 0 is explained by its ranges.
pub Says-scored :
    (b : Bool) (haystack needle : Bytes) (case_ extra : ℕ) (ranges : List Range)
    → ¬ (packed case_ extra (length haystack) ≡ 0)
    → spelled b haystack ranges ≡ needle
    → IsPlaced 0 ranges (length haystack)
    → (let f = scored case_ extra haystack ranges in Says b haystack needle f.score f.match_ranges)
unfolding scored
Says-scored b hay needle case_ extra ranges =
    Says-ranges b hay needle (packed case_ extra (length hay)) ranges

-- The call gives a result, and what that says is right.
abbrev pub Tells : Bool → (haystack needle : Bytes) → Option Fuzzy → Type 0
Tells b haystack needle result =
    (f : Fuzzy) × (result ≡ some f) × Says b haystack needle f.score f.match_ranges

pub take_all : (n : ℕ) (xs : Bytes) → length xs ≤ n → take n xs ≡ xs
take_all zero [] h = refl
take_all zero (x ∷ xs) h = absurd (omega arith)
take_all (suc n) [] h = refl
take_all (suc n) (x ∷ xs) h = ap (◌∷◌ x) (take_all n xs (omega arith))

-- A window of the front is one of the whole.
pub take-drop-take :
    (i n m : ℕ) (xs : Bytes) → i + n ≤ m → take n (drop i (take m xs)) ≡ take n (drop i xs)
take-drop-take zero zero m xs h = refl
take-drop-take zero (suc n) zero xs h = absurd (omega arith)
take-drop-take zero (suc n) (suc m) [] h = refl
take-drop-take zero (suc n) (suc m) (x ∷ xs) h =
    ap (◌∷◌ x) (take-drop-take zero n m xs (omega arith))
take-drop-take (suc i) n zero xs h = absurd (omega arith)
take-drop-take (suc i) n (suc m) [] h = refl
take-drop-take (suc i) n (suc m) (x ∷ xs) h = take-drop-take i n m xs (omega arith)

-- The needle is the end of the haystack.
pub end_spelled :
    (b : Bool) (haystack needle : Bytes) (i : ℕ)
    → length needle ≤ length haystack
    → memmem (drop (length haystack - length needle) haystack) needle b ≡ some i
    → slice b haystack (length haystack - length needle) (length haystack) ≡ needle
end_spelled b hay needle i le h =
    let n = length needle in
    let m = memmem_found b (drop (length hay - n) hay) needle i h in
    let z : i ≡ 0 = omega (arith, m.0, length-drop (length hay - n) hay) in
    let k : i + n - i ≡ n = omega arith in
    let e : length hay - (length hay - n) ≡ n = omega arith in
    let w : map (folded b) (take n (drop i (drop (length hay - n) hay))) ≡ needle = rw k at m.1 in
    rw e (rw z at w)
