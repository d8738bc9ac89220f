-- ===== src/GdbProto/Received.antt =====
-- What the decoder of src/gdbproto.rs reports, against the bytes that it was fed.
use nnd.Base.{
  ℕ, ◌≡◌, ap, Bool, false, not, ◌&&◌, ◌==◌, ==_iff, Bool-cases, inl, inr, List, [], ◌∷◌, ◌++◌,
  append_assoc, Option, some, arith, Bytes, All, All-append,
}
use nnd.GdbProto.{
  State, idle, in_data, in_checksum, Decoder, Decoded, packet, ack, nack, interrupt, checksum,
  got_checksum, step_in, step_idle, step_data, step_checksum, finish_packet,
}
use nnd.GdbProto.Invariant.{Returns}

-- Neither of the bytes that frame a packet.
abbrev pub IsUnframed : ℕ → Type 0
IsUnframed b = ((b == b'$') ≡ false) × ((b == b'#') ≡ false)

-- The packet stands in the stream between `$` and `#`, with two bytes behind it whose values as
-- hexadecimal digits, 0 for a byte that is none, give its checksum.
pub record IsFramed (h p : Bytes) : Type 0 where
  pub before : Bytes
  pub behind : Bytes
  pub c0 : ℕ
  pub c1 : ℕ
  pub split : h ≡ before ++ b'$' ∷ (p ++ b'#' ∷ c0 ∷ c1 ∷ behind)
  pub sum : got_checksum c0 c1 ≡ checksum p
  pub unframed : All IsUnframed p

-- A byte of the stream.
abbrev pub Occurs : ℕ → Bytes → Type 0
Occurs b h = (before : Bytes) × (behind : Bytes) × (h ≡ before ++ b ∷ behind)

-- What a report says about the bytes received.
abbrev pub Reported : Bool → Bytes → Decoded → Type 0
Reported no_ack h (packet p) = IsFramed h p
Reported no_ack h ack = (no_ack ≡ false) × Occurs b'+' h
Reported no_ack h nack = (no_ack ≡ false) × Occurs b'-' h
Reported no_ack h interrupt = Occurs 0x03 h

-- The end of the stream that belongs to the packet being read.
abbrev pub Tail : Bytes → Decoder → State → Type 0
Tail h d idle = Unit
Tail h d in_data = (before : Bytes) × (h ≡ before ++ b'$' ∷ d.payload) × All IsUnframed d.payload
Tail h d (in_checksum c0 c1 ℕ.zero) =
    (before : Bytes) × (h ≡ before ++ b'$' ∷ (d.payload ++ b'#' ∷ [])) × All IsUnframed d.payload
Tail h d (in_checksum c0 c1 (ℕ.suc ℕ.zero)) =
    (before : Bytes) × (h ≡ before ++ b'$' ∷ (d.payload ++ b'#' ∷ c0 ∷ []))
    × All IsUnframed d.payload
Tail h d (in_checksum c0 c1 _) = ⊥

abbrev pub Inv : Bool → Bytes → Decoder → Type 0
Inv no_ack h d = (d.no_ack ≡ no_ack) × Tail h d d.state

unfoldable pub Good : Bool → Bytes → Option (Decoder × List Decoded) → Type 0
Good no_ack h r = Returns (λ e out. Inv no_ack h e × All (Reported no_ack h) out) r

stay : (h : Bytes) (d : Decoder) → d.state ≡ idle → Tail h d d.state
stay h d s = rw s tt

last_byte : (h : Bytes) (b c : ℕ) → b ≡ c → Occurs c (h ++ b ∷ [])
last_byte h b c e = (h, [], ap (λ x. h ++ x ∷ []) e)

keep_idle :
    (na : Bool) (h : Bytes) (d : Decoder) (b : ℕ)
    → d.no_ack ≡ na
    → d.state ≡ idle
    → Good na (h ++ b ∷ []) (some (step_idle d b))
unfolding Good step_idle
keep_idle na h d b e s = elim (Bool-cases (b == b'$')) [
  | inl q ↦ rw q ((e, (h, ap (λ x. h ++ x ∷ []) ((==_iff b b'$').0 q), tt)), tt)
  | inr q ↦ rw q (elim (Bool-cases (b == b'+' && not d.no_ack)) [
    | inl r ↦ rw r ((e, stay _ d s), ((ground arith, last_byte h b b'+' (ground arith)), tt))
    | inr r ↦ rw r (elim (Bool-cases (b == b'-' && not d.no_ack)) [
      | inl u ↦ rw u ((e, stay _ d s), ((ground arith, last_byte h b b'-' (ground arith)), tt))
      | inr u ↦ rw u (elim (Bool-cases (b == 0x03)) [
        | inl v ↦ rw v ((e, stay _ d s), (last_byte h b 0x03 ((==_iff b 0x03).0 v), tt))
        | inr v ↦ rw v ((e, stay _ d s), tt)
      ])
    ])
  ])
]

keep_data :
    (na : Bool) (h : Bytes) (d : Decoder) (b : ℕ)
    → d.no_ack ≡ na
    → d.state ≡ in_data
    → Tail h d in_data
    → Good na (h ++ b ∷ []) (some (step_data d b, []))
unfolding Good step_data
keep_data na h d b e s (before, split, clean) = elim (Bool-cases (b == b'#')) [
  | inl q ↦ rw q ((e, (before, rw (split, (==_iff b b'#').0 q, append_assoc), clean)), tt)
  | inr q ↦ rw q (elim (Bool-cases (b == b'$')) [
    | inl r ↦ rw (r, s) ((e, (h, ap (λ x. h ++ x ∷ []) ((==_iff b b'$').0 r), tt)), tt)
    | inr r ↦
        rw (r, s)
          (
            (
              e,
              (
                before,
                rw (split, append_assoc),
                All-append IsUnframed d.payload (b ∷ []) clean ((r, q), tt),
              ),
            ),
            tt,
          )
  ])
]

keep_checksum_first :
    (na : Bool) (h : Bytes) (c0 c1 : ℕ) (d : Decoder) (b : ℕ)
    → d.no_ack ≡ na
    → Tail h d (in_checksum c0 c1 0)
    → Good na (h ++ b ∷ []) (some (step_checksum d 0 (b, c1)))
unfolding Good step_checksum
keep_checksum_first na h c0 c1 d b e (before, split, clean) =
    ((e, (before, rw (split, append_assoc, append_assoc), clean)), tt)

keep_checksum_second :
    (na : Bool) (h : Bytes) (c0 c1 : ℕ) (d : Decoder) (b : ℕ)
    → d.no_ack ≡ na
    → Tail h d (in_checksum c0 c1 1)
    → Good na (h ++ b ∷ []) (some (step_checksum d 1 (c0, b)))
unfolding Good step_checksum
keep_checksum_second na h c0 c1 d b e (before, split, clean) =
    elim (Bool-cases (got_checksum c0 b == checksum d.payload)) [
      | inl q ↦
          rw (q, finish_packet)
            (
              (e, tt),
              (
                record {
                  before = before;
                  behind = [];
                  c0 = c0;
                  c1 = b;
                  split = rw (split, append_assoc, append_assoc);
                  sum = (==_iff _ _).0 q;
                  unframed = clean;
                },
                tt,
              ),
            )
      | inr q ↦ rw (q, finish_packet) ((e, tt), tt)
    ]

pub keep_in :
    (na : Bool) (h : Bytes) (s : State) (d : Decoder) (b : ℕ)
    → d.state ≡ s
    → d.no_ack ≡ na
    → Tail h d s
    → Good na (h ++ b ∷ []) (step_in s d b)
unfolding step_in
keep_in na h idle d b s e t = keep_idle na h d b e s
keep_in na h in_data d b s e t = keep_data na h d b e s t
keep_in na h (in_checksum c0 c1 ℕ.zero) d b s e t = keep_checksum_first na h c0 c1 d b e t
keep_in na h (in_checksum c0 c1 (ℕ.suc ℕ.zero)) d b s e t = keep_checksum_second na h c0 c1 d b e t
keep_in na h (in_checksum c0 c1 (ℕ.suc (ℕ.suc n))) d b s e t = absurd t

Occurs-later : (h rest : Bytes) (b : ℕ) → Occurs b h → Occurs b (h ++ rest)
Occurs-later h rest b (before, behind, e) = (before, behind ++ rest, rw (e, append_assoc))

pub Reported-later :
    (na : Bool) (h rest : Bytes) (o : Decoded) → Reported na h o → Reported na (h ++ rest) o
Reported-later na h rest (packet p) f = record {
  before = f.before;
  behind = f.behind ++ rest;
  c0 = f.c0;
  c1 = f.c1;
  split = rw (f.split, append_assoc, append_assoc);
  sum = f.sum;
  unframed = f.unframed;
}
Reported-later na h rest ack f = (f.0, Occurs-later h rest b'+' f.1)
Reported-later na h rest nack f = (f.0, Occurs-later h rest b'-' f.1)
Reported-later na h rest interrupt f = Occurs-later h rest 0x03 f
