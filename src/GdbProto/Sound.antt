-- ===== src/GdbProto/Sound.antt =====
-- A decoder of src/gdbproto.rs in the middle of a stream.
use nnd.Base.{
  ℕ, zero, suc, ◌≤◌, ◌≡◌, refl, List, [], ◌∷◌, ◌++◌, Option, none, some, arith, Bytes, length,
  length-append, Option-cases, inl, inr, Bool, All,
}
use nnd.GdbProto.{
  State, idle, in_data, in_checksum, Decoder, Decoded, new, step_in, after, feed, set_no_ack,
}
use nnd.GdbProto.Invariant.{Returns, feed-Inv}
use nnd.GdbProto.Received.{Tail, Inv, Good, Reported, Reported-later, keep_in}

-- Some stream leads to the decoder's state.
abbrev pub IsSound : Decoder → Type 0
IsSound d = (h : Bytes) × Tail h d d.state

pub new-IsSound : IsSound new
unfolding new
new-IsSound = ([], tt)

pub set_no_ack-IsSound : (d : Decoder) (flag : Bool) → IsSound d → IsSound (set_no_ack d flag)
unfolding set_no_ack
set_no_ack-IsSound d flag (h, t) = (h, same d.state t)
  where
    same : (s : State) → Tail h d s → Tail h (record d { no_ack = flag }) s
    same idle t = t
    same in_data t = t
    same (in_checksum c0 c1 zero) t = t
    same (in_checksum c0 c1 (suc zero)) t = t
    same (in_checksum c0 c1 (suc (suc n))) t = t

step_in-length :
    (s : State) (d : Decoder) (b : ℕ) {e : Decoder} {out : List Decoded}
    → step_in s d b ≡ some (e, out)
    → length out ≤ 1
unfolding step_in
step_in-length idle d b h = ground arith
step_in-length in_data d b h = ground arith
step_in-length (in_checksum c0 c1 zero) d b h = ground arith
step_in-length (in_checksum c0 c1 (suc zero)) d b h = ground arith
step_in-length (in_checksum c0 c1 (suc (suc n))) d b h = ground arith

-- Each byte completes one event at most.
abbrev pub IsShort : ℕ → Option (Decoder × List Decoded) → Type 0
IsShort n none = Unit
IsShort n (some (e, out)) = length out ≤ n

after-IsShort :
    (n : ℕ) (out : List Decoded) (r : Option (Decoder × List Decoded))
    → length out ≤ 1
    → IsShort n r
    → IsShort (suc n) (after out r)
after-IsShort n out none h k = tt
after-IsShort n out (some (e, more)) h k = omega (arith, length-append out more)

feed-IsShort : (d : Decoder) (bs : Bytes) → IsShort (length bs) (feed d bs)
unfolding feed
feed-IsShort d [] = omega arith
feed-IsShort d (b ∷ bs) = elim (Option-cases (step_in d.state d b)) [
  | inl e ↦ rw e tt
  | inr ((f, out), e) ↦
      rw e (
        after-IsShort (length bs) out (feed f bs) (step_in-length d.state d b e)
          (feed-IsShort f bs))
]

-- Whatever it is fed in the middle of a stream, a decoder does not panic, is in the middle of a
-- stream again, and completes at most one event for each byte.
pub feed-IsSound :
    (d : Decoder) (bs : Bytes)
    → IsSound d
    → Returns (λ e out. IsSound e × (length out ≤ length bs)) (feed d bs)
feed-IsSound d bs (h, t) =
    join (feed d bs)
      (feed-Inv (Inv d.no_ack) (Reported d.no_ack) (Reported-later d.no_ack)
        (λ k e b i. unfold Good in keep_in d.no_ack k e.state e b refl i.0 i.1) h d bs (refl, t))
      (feed-IsShort d bs)
  where
    join :
        (r : Option (Decoder × List Decoded))
        → Returns (λ e out. Inv d.no_ack (h ++ bs) e × All (Reported d.no_ack (h ++ bs)) out) r
        → IsShort (length bs) r
        → Returns (λ e out. IsSound e × (length out ≤ length bs)) r
    join none q k = q
    join (some (e, out)) q k = ((h ++ bs, q.0.1), k)
