-- ===== src/ValueBlob/Words.antt =====
-- The three words of the small form of a `ValueBlob` of src/expr.rs, as bytes.
use nnd.Base.{
  All-take, All-drop, ℕ, zero, suc, ◌+◌, ◌*◌, ◌/◌, ◌%◌, ◌<◌, ◌≡◌, refl, ap, sym, ◌∙◌, [], ◌∷◌, ◌++◌,
  arith, Bytes, IsByte, All, length, length-drop, length-take, take, drop, replicate,
  take-append-drop, append_assoc,
}
use nnd.ByteIo.{to_le_bytes, from_le_bytes}
use nnd.ValueBlob.{small, as_slice, write_back}

to_le_bytes-from_le_bytes :
    (w : ℕ) (bs : Bytes) → length bs ≡ w → All IsByte bs → to_le_bytes w (from_le_bytes bs) ≡ bs
unfolding to_le_bytes from_le_bytes
to_le_bytes-from_le_bytes zero [] e h = refl
to_le_bytes-from_le_bytes zero (b ∷ bs) e h = absurd (omega arith)
to_le_bytes-from_le_bytes (suc w) [] e h = absurd (omega arith)
to_le_bytes-from_le_bytes (suc w) (b ∷ bs) e h =
    let l : b < 256 = h.0 in
    let v = from_le_bytes bs in
    let m : (b + 256 * v) % 256 ≡ b = omega arith in
    let q : (b + 256 * v) / 256 ≡ v = omega arith in
    rw (m, q, to_le_bytes-from_le_bytes w bs (omega arith) h.1) refl

pub All-zeros : (n : ℕ) → All IsByte (replicate n 0)
All-zeros zero = tt
All-zeros (suc n) = (omega arith, All-zeros n)

drop-drop : (k m n : ℕ) (bs : Bytes) → k ≡ m + n → drop n (drop m bs) ≡ drop k bs
drop-drop k zero n bs e = ap (λ i. drop i bs) (omega arith)
drop-drop zero (suc m) n bs e = absurd (omega arith)
drop-drop (suc k) (suc m) zero [] e = refl
drop-drop (suc k) (suc m) (suc n) [] e = refl
drop-drop (suc k) (suc m) n (b ∷ bs) e = drop-drop k m n bs (omega arith)

take-all : (n : ℕ) (bs : Bytes) → length bs ≡ n → take n bs ≡ bs
take-all zero [] e = refl
take-all zero (b ∷ bs) e = absurd (omega arith)
take-all (suc n) [] e = refl
take-all (suc n) (b ∷ bs) e = ap (◌∷◌ b) (take-all n bs (omega arith))

words :
    (bs : Bytes) → length bs ≡ 24 → take 8 bs ++ (take 8 (drop 8 bs) ++ take 8 (drop 16 bs)) ≡ bs
words bs e =
    ap (λ t. take 8 bs ++ (take 8 (drop 8 bs) ++ t))
      (take-all 8 (drop 16 bs) (omega (arith, e, length-drop 16 bs))
        ∙ sym (drop-drop 16 8 8 bs refl))
    ∙ ap (λ t. take 8 bs ++ t) (take-append-drop 8 (drop 8 bs))
    ∙ take-append-drop 8 bs

-- Writing 24 bytes into a small blob and reading them.
pub as_slice-write_back :
    (a b c : ℕ) (bs : Bytes)
    → length bs ≡ 24
    → All IsByte bs
    → as_slice (write_back (small a b c) bs) ≡ bs
unfolding as_slice write_back
as_slice-write_back a b c bs e h =
    rw
      (
        to_le_bytes-from_le_bytes 8 (take 8 bs) (omega (arith, e, length-take 8 bs))
            (All-take IsByte 8 bs h),
        to_le_bytes-from_le_bytes 8 (take 8 (drop 8 bs))
            (omega (arith, e, length-take 8 (drop 8 bs), length-drop 8 bs))
            (All-take IsByte 8 (drop 8 bs) (All-drop IsByte 8 bs h)),
        to_le_bytes-from_le_bytes 8 (take 8 (drop 16 bs))
            (omega (arith, e, length-take 8 (drop 16 bs), length-drop 16 bs))
            (All-take IsByte 8 (drop 16 bs) (All-drop IsByte 16 bs h)),
      )
      (append_assoc (take 8 bs) (take 8 (drop 8 bs)) (take 8 (drop 16 bs)) ∙ words bs e)
