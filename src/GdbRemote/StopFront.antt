-- ===== src/GdbRemote/StopFront.antt =====
-- What the text of a packet begins with, against its bytes: how `wait_stop` and
-- `clear_resume_if_stop` of src/gdb_remote.rs tell a stop.
use nnd.Base.{
  ℕ, zero, suc, ◌≤◌, ◌<◌, ◌≡◌, refl, Bool, true, false, not, ◌||◌, [], ◌∷◌, ◌++◌, ◌⊎◌, inl, inr,
  arith, Bytes, length, ltb, Bool-cases, if◌then◌else◌, drop, take, ltb→lt, get_or,
}
use nnd.GdbRemote.Ascii.{char_chunk_ascii}
use nnd.GdbRemote.Connection.{is_stop}
use nnd.GdbRemote.Text.{
  Chunk, char_chunk, lossy_from, from_utf8_lossy, second_of_three, second_of_four, is_within,
  is_continuation, replacement,
}
use nnd.GdbRemote.Waiting.{starts_with}

if-size : (b : Bool) (r s : Chunk) → 0 < r.size → 0 < s.size → 0 < (if b then r else s).size
if-size true r s h k = h
if-size false r s h k = k

char_chunk-size : (b : ℕ) (rest : Bytes) → 0 < (char_chunk b rest).size
unfolding char_chunk
char_chunk-size b rest =
    let one : 0 < 1 = omega arith in
    let two : 0 < 2 = omega arith in
    let three : 0 < 3 = omega arith in
    let four : 0 < 4 = omega arith in
    let c0 = get_or rest 0 0 in
    let c1 = get_or rest 1 0 in
    if-size (ltb b 128) _ _ one (
      if-size (is_within 0xc2 0xdf b) _ _ (if-size (is_continuation c0) _ _ two one) (
        if-size (is_within 0xe0 0xef b) _ _
          (if-size (not (second_of_three b c0)) _ _ one
            (if-size (not (is_continuation c1)) _ _ two three))
          (if-size (is_within 0xf0 0xf4 b) _ _
            (if-size (not (second_of_four b c0)) _ _ one (
              if-size (not (is_continuation c1)) _ _ two
                (if-size (not (is_continuation (get_or rest 2 0))) _ _ three four)))
            one)))

-- What does not begin with an ASCII character.
front_is_not :
    (x b n : ℕ) (valid : Bool) (rest more : Bytes)
    → x < 128
    → 128 ≤ b
    → 0 < n
    → starts_with x ((if valid then take n (b ∷ rest) else replacement) ++ more) ≡ false
unfolding starts_with
front_is_not x b zero valid rest more h k l = absurd (omega arith)
front_is_not x b (suc n) true rest more h k l = ground arith
front_is_not x b (suc n) false rest more h k l = ground arith

-- A text that begins with an ASCII character is that of bytes that begin with it.
starts_with-from_utf8_lossy :
    (x : ℕ) (p : Bytes)
    → x < 128
    → starts_with x (from_utf8_lossy p) ≡ true
    → starts_with x p ≡ true
unfolding starts_with from_utf8_lossy lossy_from
starts_with-from_utf8_lossy x [] h e = e
starts_with-from_utf8_lossy x (b ∷ rest) h e = elim (Bool-cases (ltb b 128)) [
  | inl f ↦ rw (char_chunk_ascii b rest (ltb→lt b 128 f)) at e
  | inr f ↦
      let k : 128 ≤ b = ground arith in
      let g =
        front_is_not x b (char_chunk b rest).size (char_chunk b rest).valid rest
          (lossy_from (length rest) (drop (char_chunk b rest).size (b ∷ rest))) h k
          (char_chunk-size b rest) in
      cc
]

or-true : (a b : Bool) → (a || b) ≡ true → (a ≡ true) ⊎ (b ≡ true)
or-true true b h = inl refl
or-true false b h = inr h

is_stop-starts_with :
    (x : ℕ) (p : Bytes) → is_stop (x ∷ []) ≡ true → starts_with x p ≡ true → is_stop p ≡ true
unfolding starts_with is_stop
is_stop-starts_with x [] h e = e
is_stop-starts_with x (b ∷ bs) h e = let f : b ≡ x = ground arith in rw f h

-- What the text of a packet begins with where it is taken for a stop.
pub is_stop-text :
    (x y : ℕ) (p : Bytes)
    → (x < 128) × (is_stop (x ∷ []) ≡ true)
    → (y < 128) × (is_stop (y ∷ []) ≡ true)
    → (starts_with x (from_utf8_lossy p) || starts_with y (from_utf8_lossy p)) ≡ true
    → is_stop p ≡ true
is_stop-text x y p h k e = elim (or-true _ _ e) [
  | inl f ↦ is_stop-starts_with x p h.1 (starts_with-from_utf8_lossy x p h.0 f)
  | inr f ↦ is_stop-starts_with y p k.1 (starts_with-from_utf8_lossy y p k.0 f)
]
