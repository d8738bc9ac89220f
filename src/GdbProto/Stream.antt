-- ===== src/GdbProto/Stream.antt =====
-- How `feed` of src/gdbproto.rs composes, whatever the splits of the stream.
use nnd.Base.{
  ◌≡◌, refl, sym, ap, List, [], ◌∷◌, ◌++◌, append_assoc, Option, none, some, ◌>>=◌, Bytes,
  Option-cases, inl, inr,
}
use nnd.GdbProto.{Decoder, Decoded, step_in, after, feed}

pub after-nil : (r : Option (Decoder × List Decoded)) → after [] r ≡ r
after-nil none = refl
after-nil (some r) = refl

after-append :
    (xs ys : List Decoded) (r : Option (Decoder × List Decoded))
    → after (xs ++ ys) r ≡ after xs (after ys r)
after-append xs ys none = refl
after-append xs ys (some (d, more)) = ap (λ o. some (d, o)) (append_assoc xs ys more)

after_bind :
    (out : List Decoded) (r : Option (Decoder × List Decoded)) (ys : Bytes)
    → after out (r >>= λ (e, more). after more (feed e ys))
      ≡ (after out r >>= λ (e, more). after more (feed e ys))
after_bind out none ys = refl
after_bind out (some (e, more)) ys = sym (after-append out more (feed e ys))

-- Feeding bytes in two calls is feeding them in one, wherever the stream is split.
pub feed-append :
    (d : Decoder) (xs ys : Bytes)
    → feed d (xs ++ ys) ≡ (feed d xs >>= λ (e, out). after out (feed e ys))
unfolding feed
feed-append d [] ys = sym (after-nil (feed d ys))
feed-append d (b ∷ xs) ys = elim (Option-cases (step_in d.state d b)) [
  | inl e ↦ rw e
  | inr ((e, out), h) ↦ rw h (rw (feed-append e xs ys) (after_bind out (feed e xs) ys))
]
