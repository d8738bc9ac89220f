-- ===== src/GdbProto/Escape.antt =====
-- The binary escaping of src/gdbproto.rs: `escape` and `unescape`.
use nnd.Base.{
  ℕ, ◌≡◌, refl, ◌∙◌, inl, inr, Bool, true, false, not, ◌&&◌, ◌||◌, ◌==◌, ==_iff, [], ◌∷◌, ◌++◌,
  append_assoc, append-nil, bit_xor, arith, ltb, ltb→lt, all_below, all_below_sound, Bool-cases,
  Bytes, IsByte, All,
}
use nnd.GdbProto.{needs_escape, escape, unescape_from, unescape, ok}

-- May stand in the payload of an `X` packet: it does not end the packet or start another one.
abbrev is_plain : ℕ → Bool
is_plain b = not (b == b'#') && not (b == b'$') && not (b == 0x7e)

abbrev pub IsPlain : ℕ → Type 0
IsPlain b = is_plain b ≡ true

xor_table : all_below 256 (λ x. bit_xor (bit_xor x 0x20) 0x20 == x) ≡ true
unfolding all_below
xor_table = refl

xor_twice : (x : ℕ) → IsByte x → bit_xor (bit_xor x 0x20) 0x20 ≡ x
xor_twice x h = (==_iff _ x).0 (all_below_sound 256 _ x xor_table h)

byte_table : all_below 256 (λ x. ltb (bit_xor x 0x20) 256) ≡ true
unfolding all_below
byte_table = refl

xor-IsByte : (x : ℕ) → IsByte x → IsByte (bit_xor x 0x20)
xor-IsByte x h = ltb→lt _ 256 (all_below_sound 256 _ x byte_table h)

plain_table : all_below 256 (λ x. not (needs_escape x) || is_plain (bit_xor x 0x20)) ≡ true
unfolding all_below needs_escape
plain_table = refl

escaped-IsPlain : (x : ℕ) → IsByte x → needs_escape x ≡ true → IsPlain (bit_xor x 0x20)
escaped-IsPlain x h e =
    let t : (not (needs_escape x) || is_plain (bit_xor x 0x20)) ≡ true =
      all_below_sound 256 _ x plain_table h in
    ground arith

not_escape : (b : ℕ) → needs_escape b ≡ false → (b == 0x7d) ≡ false
unfolding needs_escape
not_escape b e = ground arith

unescaped-IsPlain : (b : ℕ) → needs_escape b ≡ false → IsPlain b
unfolding needs_escape
unescaped-IsPlain b e = ground arith

unescape_from-plain :
    (out : Bytes) (b : ℕ) (rest : Bytes)
    → (b == 0x7d) ≡ false
    → unescape_from out (b ∷ rest) ≡ unescape_from (out ++ b ∷ []) rest
unfolding unescape_from
unescape_from-plain out b [] e = rw e
unescape_from-plain out b (c ∷ rest) e = rw e

-- The loop reads what `escape` wrote, and appends it to what it has.
unescape_from-escape :
    (out bs : Bytes) → All IsByte bs → unescape_from out (escape bs) ≡ ok (out ++ bs)
unfolding escape unescape_from
unescape_from-escape out [] h = rw append-nil
unescape_from-escape out (b ∷ bs) h = elim (Bool-cases (needs_escape b)) [
  | inl e ↦ rw (e, xor_twice b h.0) (unescape_from-escape (out ++ b ∷ []) bs h.1 ∙ rw append_assoc)
  | inr e ↦ rw e (
      unescape_from-plain out b (escape bs) (not_escape b e)
      ∙ unescape_from-escape (out ++ b ∷ []) bs h.1
      ∙ rw append_assoc)
]

escape-IsPlain : (bs : Bytes) → All IsByte bs → All IsPlain (escape bs)
unfolding escape
escape-IsPlain [] h = tt
escape-IsPlain (b ∷ bs) h = elim (Bool-cases (needs_escape b)) [
  | inl e ↦ rw e (refl, (escaped-IsPlain b h.0 e, escape-IsPlain bs h.1))
  | inr e ↦ rw e (unescaped-IsPlain b e, escape-IsPlain bs h.1)
]

-- The escaped form is made of bytes again.
pub escape-IsByte : (bs : Bytes) → All IsByte bs → All IsByte (escape bs)
unfolding escape
escape-IsByte [] h = tt
escape-IsByte (b ∷ bs) h = elim (Bool-cases (needs_escape b)) [
  | inl e ↦ rw e (omega arith, (xor-IsByte b h.0, escape-IsByte bs h.1))
  | inr e ↦ rw e (h.0, escape-IsByte bs h.1)
]

-- Unescaping gives back any bytes that were escaped, and the escaped form holds none of the
-- bytes `#`, `$` and 0x7e.
pub unescape-escape :
    (bytes : Bytes)
    → All IsByte bytes
    → (unescape (escape bytes) ≡ ok bytes) × All IsPlain (escape bytes)
unfolding unescape
unescape-escape bytes h = (unescape_from-escape [] bytes h, escape-IsPlain bytes h)
