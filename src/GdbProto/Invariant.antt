-- ===== src/GdbProto/Invariant.antt =====
-- The invariant rule of the loop in `feed` of src/gdbproto.rs, over the bytes received so far.
use nnd.Base.{
  ℕ, List, [], ◌∷◌, ◌++◌, append_assoc, append-nil, Option, none, some, Bytes, Option-cases, inl,
  inr, All, All-append,
}
use nnd.GdbProto.{Decoder, Decoded, step_in, after, feed}

-- The step does not panic, and its result is as said.
abbrev pub Returns : (Decoder → List Decoded → Type 0) → Option (Decoder × List Decoded) → Type 0
Returns P none = ⊥
Returns P (some (d, out)) = P d out

module _ (Inv : Bytes → Decoder → Type 0) (Out : Bytes → Decoded → Type 0)
    (later : (h rest : Bytes) (o : Decoded) → Out h o → Out (h ++ rest) o)
    (keep : (h : Bytes) (d : Decoder) (b : ℕ)
      → Inv h d
      → Returns
          (λ e out. Inv (h ++ b ∷ []) e × All (Out (h ++ b ∷ [])) out)
          (step_in d.state d b)) where
  All-later : (h rest : Bytes) (out : List Decoded) → All (Out h) out → All (Out (h ++ rest)) out
  All-later h rest [] a = tt
  All-later h rest (o ∷ out) a = (later h rest o a.0, All-later h rest out a.1)

  join :
      (h rest : Bytes) (out : List Decoded) (r : Option (Decoder × List Decoded))
      → All (Out h) out
      → Returns (λ e more. Inv (h ++ rest) e × All (Out (h ++ rest)) more) r
      → Returns (λ e more. Inv (h ++ rest) e × All (Out (h ++ rest)) more) (after out r)
  join h rest out none a r = r
  join h rest out (some (e, more)) a r =
      (r.0, All-append (Out (h ++ rest)) out more (All-later h rest out a) r.1)

  -- What each step keeps, the whole call keeps, and the call does not panic.
  pub feed-Inv :
      (h : Bytes) (d : Decoder) (bs : Bytes)
      → Inv h d
      → Returns (λ e out. Inv (h ++ bs) e × All (Out (h ++ bs)) out) (feed d bs)
  unfolding feed
  feed-Inv h d [] i = rw append-nil (i, tt)
  feed-Inv h d (b ∷ bs) i = elim (Option-cases (step_in d.state d b)) [
    | inl e ↦ absurd (rw e at (keep h d b i))
    | inr ((e, out), q) ↦
        let k : Inv (h ++ b ∷ []) e × All (Out (h ++ b ∷ [])) out = rw q at (keep h d b i) in
        rw q (
          rw (append_assoc h (b ∷ []) bs) at
            (join (h ++ b ∷ []) bs out (feed e bs) k.1 (feed-Inv (h ++ b ∷ []) e bs k.0)))
  ]
