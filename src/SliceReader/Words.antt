-- ===== src/SliceReader/Words.antt =====
-- Words of bytes as `SliceReader` of src/dwarf.rs reads them, and masks on them.
use nnd.Base.{
  ℕ, zero, suc, ◌+◌, ◌*◌, ◌/◌, ◌%◌, ◌<◌, ◌≤◌, ◌≡◌, refl, true, ◌==◌, [], ◌∷◌, some, Bytes, IsByte,
  All, length, take, arith, bit_and, bit_and_split, zero_and, and_none, all_below, all_below_sound,
  ==_iff,
}
use nnd.SliceReader.{le_word}

-- The number that bytes are, the lowest first.
abbrev pub le : Bytes → ℕ
le [] = 0
le (b ∷ bs) = b + 256 * le bs

pub le_word_read : (k : ℕ) (p : Bytes) → k ≤ length p → le_word k p ≡ some (le (take k p))
unfolding le_word
le_word_read zero p h = refl
le_word_read (suc k) [] h = absurd (omega arith)
le_word_read (suc k) (b ∷ p) h = rw (le_word_read k p (omega arith)) refl

-- A conjunction byte by byte.
abbrev pub masked : Bytes → Bytes → Bytes
masked [] ms = []
masked (b ∷ bs) [] = []
masked (b ∷ bs) (m ∷ ms) = bit_and b m ∷ masked bs ms

pub bit_and-le :
    (bs ms : Bytes) → All IsByte bs → All IsByte ms → bit_and (le bs) (le ms) ≡ le (masked bs ms)
bit_and-le [] ms hb hm = zero_and (le ms)
bit_and-le (b ∷ bs) [] hb hm = and_none (b + 256 * le bs)
bit_and-le (b ∷ bs) (m ∷ ms) hb hm =
    omega (arith, bit_and_split 8 b m (le bs) (le ms) hb.0 hm.0, bit_and-le bs ms hb.1 hm.1)

bit_and_low_test : all_below 256 (λ b. bit_and b 0x7f == b % 128) ≡ true
unfolding all_below
bit_and_low_test = refl

bit_and_high_test : all_below 256 (λ b. bit_and b 0x80 == b / 128 * 128) ≡ true
unfolding all_below
bit_and_high_test = refl

bit_and_top_test : all_below 256 (λ b. bit_and b 0xfc == b / 4 * 4) ≡ true
unfolding all_below
bit_and_top_test = refl

pub bit_and_low : (b : ℕ) → b < 256 → bit_and b 0x7f ≡ b % 128
bit_and_low b h =
    (==_iff (bit_and b 0x7f) (b % 128)).0
      (all_below_sound 256 (λ b. bit_and b 0x7f == b % 128) b bit_and_low_test h)

pub bit_and_high : (b : ℕ) → b < 256 → bit_and b 0x80 ≡ b / 128 * 128
bit_and_high b h =
    (==_iff (bit_and b 0x80) (b / 128 * 128)).0
      (all_below_sound 256 (λ b. bit_and b 0x80 == b / 128 * 128) b bit_and_high_test h)

pub bit_and_top : (b : ℕ) → b < 256 → bit_and b 0xfc ≡ b / 4 * 4
bit_and_top b h =
    (==_iff (bit_and b 0xfc) (b / 4 * 4)).0
      (all_below_sound 256 (λ b. bit_and b 0xfc == b / 4 * 4) b bit_and_top_test h)

-- The ten bytes that a LEB128 read may look at.
pub data TenBytes : Bytes → Type 0 where
  ten :
      (b0 b1 b2 b3 b4 b5 b6 b7 b8 b9 : ℕ) (rest : Bytes)
      → TenBytes (b0 ∷ b1 ∷ b2 ∷ b3 ∷ b4 ∷ b5 ∷ b6 ∷ b7 ∷ b8 ∷ b9 ∷ rest)

pub TenBytes-of : (p : Bytes) → 10 ≤ length p → TenBytes p
TenBytes-of (b0 ∷ b1 ∷ b2 ∷ b3 ∷ b4 ∷ b5 ∷ b6 ∷ b7 ∷ b8 ∷ b9 ∷ rest) h =
    ten b0 b1 b2 b3 b4 b5 b6 b7 b8 b9 rest
TenBytes-of [] h = absurd (omega arith)
TenBytes-of (_ ∷ []) h = absurd (omega arith)
TenBytes-of (_ ∷ _ ∷ []) h = absurd (omega arith)
TenBytes-of (_ ∷ _ ∷ _ ∷ []) h = absurd (omega arith)
TenBytes-of (_ ∷ _ ∷ _ ∷ _ ∷ []) h = absurd (omega arith)
TenBytes-of (_ ∷ _ ∷ _ ∷ _ ∷ _ ∷ []) h = absurd (omega arith)
TenBytes-of (_ ∷ _ ∷ _ ∷ _ ∷ _ ∷ _ ∷ []) h = absurd (omega arith)
TenBytes-of (_ ∷ _ ∷ _ ∷ _ ∷ _ ∷ _ ∷ _ ∷ []) h = absurd (omega arith)
TenBytes-of (_ ∷ _ ∷ _ ∷ _ ∷ _ ∷ _ ∷ _ ∷ _ ∷ []) h = absurd (omega arith)
TenBytes-of (_ ∷ _ ∷ _ ∷ _ ∷ _ ∷ _ ∷ _ ∷ _ ∷ _ ∷ []) h = absurd (omega arith)
