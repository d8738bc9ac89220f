-- ===== src/ValueBlob/Bytewise.antt =====
-- The bytes of a `ValueBlob` of src/expr.rs that is made of bytes.
use nnd.Base.{
  All-append, ℕ, zero, suc, ◌-◌, ◌≤◌, ◌<◌, ◌≡◌, refl, ap, ◌∙◌, leb, ◌++◌, arith, Bytes, IsByte, All,
  length, length-append, take, drop, replicate, Bool-cases, inl, inr, length-replicate,
}
use nnd.ByteIo.{to_le_bytes}
use nnd.ValueBlob.{
  ValueBlob, Result, ok, err, panicked, small, big, with_capacity, as_slice, write_back, copy_front,
  from_slice,
}
use nnd.ValueBlob.Words.{All-zeros, as_slice-write_back}

abbrev zeros : ℕ → Bytes
zeros n = replicate n 0

length-zeros : (n : ℕ) → length (zeros n) ≡ n
length-zeros n = length-replicate n 0

drop-zeros : (n m k : ℕ) → k ≡ m - n → drop n (zeros m) ≡ zeros k
drop-zeros zero m k e = let f : m ≡ k = omega arith in ap zeros f
drop-zeros (suc n) zero k e = let f : 0 ≡ k = omega arith in ap zeros f
drop-zeros (suc n) (suc m) k e = drop-zeros n m k (omega arith)

zero_blob : as_slice (small 0 0 0) ≡ replicate 24 0
unfolding as_slice to_le_bytes
zero_blob = refl

-- A fresh small blob with bytes in front has zeros behind them.
small-front :
    (s : Bytes)
    → length s ≤ 24
    → All IsByte s
    → as_slice (write_back (small 0 0 0) (copy_front s (as_slice (small 0 0 0))))
      ≡ s ++ replicate (24 - length s) 0
small-front s l h =
    let eq : copy_front s (as_slice (small 0 0 0)) ≡ s ++ replicate (24 - length s) 0 =
      ap (λ z. s ++ drop (length s) z) zero_blob
      ∙ ap (λ z. s ++ z) (drop-zeros (length s) 24 (24 - length s) refl) in
    ap (λ v. as_slice (write_back (small 0 0 0) v)) eq
    ∙ as_slice-write_back 0 0 0 (s ++ replicate (24 - length s) 0)
        (omega
          (arith, l, length-append s (replicate (24 - length s) 0), length-zeros (24 - length s)))
        (All-append IsByte s (replicate (24 - length s) 0) h (All-zeros (24 - length s)))

big-front :
    (s dest : Bytes)
    → 24 < length s
    → dest ≡ zeros (length s)
    → as_slice (write_back (big dest) (copy_front s dest)) ≡ s ++ replicate (24 - length s) 0
unfolding as_slice write_back
big-front s dest h e =
    ap (λ z. s ++ drop (length s) z) e
    ∙ ap (λ z. s ++ z) (drop-zeros (length s) (length s) (24 - length s) (omega arith))

-- A blob made of bytes has them in front, and zeros behind them up to 24 bytes.
as_slice-from_slice :
    (s : Bytes) → All IsByte s → as_slice (from_slice s) ≡ s ++ replicate (24 - length s) 0
unfolding from_slice with_capacity as_slice
as_slice-from_slice s h = elim (Bool-cases (leb (length s) 24)) [
  | inl e ↦ rw e (small-front s (ground arith) h)
  | inr e ↦ rw e (big-front s (zeros (length s)) (ground arith) refl)
]

-- The big form is only for more than 24 bytes.
abbrev pub IsLong : ValueBlob → Type 0
IsLong (small a b c) = Unit
IsLong (big v) = 24 < length v

-- What a blob is resized to.
abbrev pub Resized : ValueBlob → ℕ → Result ValueBlob → Type 0
Resized blob n (ok r) =
    IsLong r
    × (n ≤ length (as_slice r))
    × (take n (as_slice r) ≡ take n (as_slice blob ++ replicate n 0))
Resized blob n err = ⊥
Resized blob n panicked = ⊥
