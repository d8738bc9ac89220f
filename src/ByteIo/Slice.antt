-- ===== src/ByteIo/Slice.antt =====
-- Slices of src/util.rs: the blocks in which they are read make up what was written.
use nnd.Base.{
  ℕ, zero, suc, ◌+◌, ◌-◌, ◌*◌, ◌/◌, ◌^◌, ◌≤◌, ◌<◌, ◌≡◌, refl, ap, sym, ◌∙◌, min, false, ltb, [],
  ◌∷◌, ◌++◌, arith, append-nil, append_assoc, Bytes, length, length-append, length-take,
  length-drop, take-append-drop, take, drop, lt→ltb,
}
use nnd.ByteIo.{
  ok, to_le_bytes, from_le_bytes, read_exact, read_number, read_usize, read_blocks, read_slice,
  write_usize, write_slice, block_size, ◌>>=◌,
}

take-append : (xs ys : Bytes) → take (length xs) (xs ++ ys) ≡ xs
take-append [] ys = refl
take-append (x ∷ xs) ys = ap (◌∷◌ x) (take-append xs ys)

drop-append : (xs ys : Bytes) → drop (length xs) (xs ++ ys) ≡ ys
drop-append [] ys = refl
drop-append (x ∷ xs) ys = drop-append xs ys

-- Reading as many bytes as stand in front.
read_exact-append : (n : ℕ) (xs ys : Bytes) → length xs ≡ n → read_exact n (xs ++ ys) ≡ ok xs ys
unfolding read_exact
read_exact-append n xs ys e =
    let t : ltb (length (xs ++ ys)) (length xs) ≡ false = ground (arith, length-append xs ys) in
    rw (← e) (rw (t, take-append xs ys, drop-append xs ys) refl)

pub length-to_le_bytes : (w x : ℕ) → length (to_le_bytes w x) ≡ w
unfolding to_le_bytes
length-to_le_bytes zero x = refl
length-to_le_bytes (suc w) x = ap suc (length-to_le_bytes w (x / 256))

-- The numbers of so many bytes.
abbrev pub bound : ℕ → ℕ
bound zero = 1
bound (suc w) = 256 * bound w

from_le_bytes-to_le_bytes : (w x : ℕ) → x < bound w → from_le_bytes (to_le_bytes w x) ≡ x
unfolding to_le_bytes from_le_bytes
from_le_bytes-to_le_bytes zero x h = omega arith
from_le_bytes-to_le_bytes (suc w) x h =
    let ih = from_le_bytes-to_le_bytes w (x / 256) (omega arith) in rw ih (omega arith)

pub read_number-to_le_bytes :
    (w x : ℕ) (rest : Bytes) → x < bound w → read_number w (to_le_bytes w x ++ rest) ≡ ok x rest
unfolding read_number
read_number-to_le_bytes w x rest h =
    rw
      (
        read_exact-append w (to_le_bytes w x) rest (length-to_le_bytes w x),
        from_le_bytes-to_le_bytes w x h,
      )
      refl

read_block :
    (fuel n pos : ℕ) (v block tail : Bytes)
    → pos < n
    → length block ≡ min block_size (n - pos)
    → read_blocks (suc fuel) n pos v (block ++ tail)
      ≡ read_blocks fuel n (pos + min block_size (n - pos)) (v ++ block) tail
unfolding read_blocks
read_block fuel n pos v block tail l e =
    rw (lt→ltb pos n l, read_exact-append (min block_size (n - pos)) block tail e) refl

read_blocks-append :
    (fuel n pos : ℕ) (v bytes rest : Bytes)
    → n ≡ pos + length bytes
    → length bytes ≤ fuel
    → read_blocks fuel n pos v (bytes ++ rest) ≡ ok (v ++ bytes) rest
unfolding read_blocks
read_blocks-append zero n pos v [] rest e h = rw (append-nil v) refl
read_blocks-append zero n pos v (b ∷ bs) rest e h = absurd (omega arith)
read_blocks-append (suc fuel) n pos v [] rest e h =
    let t : ltb pos n ≡ false = ground arith in rw (t, append-nil v) refl
read_blocks-append (suc fuel) n pos v (b ∷ bs) rest e h =
    let k = min block_size (n - pos) in
    let size : length (take k (b ∷ bs)) ≡ k = omega (arith, length-take k (b ∷ bs)) in
    let after : length (drop k (b ∷ bs)) ≡ suc (length bs) - k = length-drop k (b ∷ bs) in
    ap (λ l. read_blocks (suc fuel) n pos v (l ++ rest)) (sym (take-append-drop k (b ∷ bs)))
    ∙ ap (read_blocks (suc fuel) n pos v) (append_assoc (take k (b ∷ bs)) (drop k (b ∷ bs)) rest)
    ∙ read_block fuel n pos v (take k (b ∷ bs)) (drop k (b ∷ bs) ++ rest) (omega arith) size
    ∙ read_blocks-append fuel n (pos + k) (v ++ take k (b ∷ bs)) (drop k (b ∷ bs)) rest
        (omega arith) (omega arith)
    ∙ ap (λ l. ok l rest)
        (append_assoc v (take k (b ∷ bs)) (drop k (b ∷ bs))
          ∙ ap (λ l. v ++ l) (take-append-drop k (b ∷ bs)))

-- A slice that was written is read back, whatever number of blocks it takes, and what stands
-- behind it is left.
pub read_slice-write_slice :
    (bytes rest : Bytes)
    → length bytes < 2 ^ 64
    → read_slice (write_slice bytes ++ rest) ≡ ok bytes rest
unfolding read_slice read_usize write_slice write_usize
read_slice-write_slice bytes rest h =
    ap read_slice (append_assoc (to_le_bytes 8 (length bytes)) bytes rest)
    ∙ ap (λ r. r >>= λ n tail. read_blocks n n 0 [] tail)
        (read_number-to_le_bytes 8 (length bytes) (bytes ++ rest) h)
    ∙ read_blocks-append (length bytes) (length bytes) 0 [] bytes rest (omega arith) (omega arith)
