-- ===== src/GdbRemote/Arrival.antt =====
-- `next_decoded` of src/gdb_remote.rs on a frame that arrives in pieces: the reads stop at the
-- event, wherever the stream is split.
use nnd.Base.{
  ℕ, zero, suc, ◌≤◌, ◌≡◌, refl, ap, sym, ◌∙◌, Bool, false, List, [], ◌∷◌, ◌++◌, Option, none, some,
  ◌>>=◌, arith, Bytes, take, drop, take-append-drop, append_assoc, append-nil,
}
use nnd.GdbProto.{Decoder, Decoded, idle, after, feed}
use nnd.GdbProto.Stream.{feed-append}
use nnd.GdbRemote.Connection.{
  ReadEvent, received, GdbRemote, take_fed, unread, read_with, read_once, next_from, bytes_left,
  reads_left,
}
use nnd.GdbRemote.Ready.{bytes_left-unread, taken}
use nnd.GdbRemote.Result.{ok}

-- Bytes that come in pieces, each of which has one byte at least.
abbrev pub Piece : Type 0
Piece = ℕ × Bytes

unfoldable pub joined : List Piece → Bytes
joined [] = []
joined ((b, bs) ∷ ps) = b ∷ (bs ++ joined ps)

unfoldable pub arriving : List Piece → List ReadEvent → List ReadEvent
arriving [] rs = rs
arriving ((b, bs) ∷ ps) rs = received (b ∷ bs) ∷ arriving ps rs

-- What is fixed while a client talks to its stub.
pub record Session : Type 0 where
  pub decoder : Decoder
  pub no_ack : Bool
  pub packet_size : ℕ
  pub qsupported : Bytes
  pub is_idle : decoder.state ≡ idle
  pub is_empty : decoder.payload ≡ []

-- A client that waits for nothing, with the reads that are to come and the bytes written so far.
abbrev pub quiet : Session → List ReadEvent → Bytes → GdbRemote
quiet s rs w = record {
  stream = record { reads = rs; writes = []; written = w };
  decoder = s.decoder;
  no_ack = s.no_ack;
  packet_size = s.packet_size;
  qsupported = s.qsupported;
  pending = [];
  orphan_replies = [];
  resume_in_flight = false;
}

-- A client in the middle of an event, with what the last read has completed.
abbrev pub waiting : Session → Decoder → List Decoded → List ReadEvent → Bytes → GdbRemote
waiting s d ds rs w = record (quiet s rs w) { decoder = d; pending = ds }

kept : Bytes → List Piece → List Piece
kept [] ps = ps
kept (b ∷ bs) ps = (b, bs) ∷ ps

unread-kept :
    (bs : Bytes) (ps : List Piece) (rs : List ReadEvent)
    → unread bs (arriving ps rs) ≡ arriving (kept bs ps) rs
unfolding unread kept arriving
unread-kept [] ps rs = refl
unread-kept (b ∷ bs) ps rs = refl

joined-kept : (bs : Bytes) (ps : List Piece) → joined (kept bs ps) ≡ bs ++ joined ps
unfolding kept joined
joined-kept [] ps = refl
joined-kept (b ∷ bs) ps = refl

-- Bytes that report nothing are taken in parts that report nothing.
feed-silent :
    (d e : Decoder) (xs ys : Bytes)
    → feed d (xs ++ ys) ≡ some (e, [])
    → (m : Decoder) × (feed d xs ≡ some (m, [])) × (feed m ys ≡ some (e, []))
feed-silent d e xs ys h = go (feed d xs) refl (sym (feed-append d xs ys) ∙ h)
  where
    behind :
        (m : Decoder) (out : List Decoded) (r : Option (Decoder × List Decoded))
        → after out r ≡ some (e, [])
        → (out ≡ []) × (r ≡ some (e, []))
    behind m [] none q = absurd cc
    behind m [] (some (f, more)) q = (refl, q)
    behind m (x ∷ out) none q = absurd cc
    behind m (x ∷ out) (some (f, more)) q = absurd cc

    go :
        (r : Option (Decoder × List Decoded))
        → feed d xs ≡ r
        → (r >>= λ (m, out). after out (feed m ys)) ≡ some (e, [])
        → (m : Decoder) × (feed d xs ≡ some (m, [])) × (feed m ys ≡ some (e, []))
    go none q k = absurd cc
    go (some (m, out)) q k =
        let (o, f) = behind m out (feed m ys) k in (m, q ∙ ap (λ z. some (m, z)) o, f)

-- Where a list that ends in `z` is cut, and something is behind the cut.
cut :
    (xs front : Bytes) (z y : ℕ) (ys : Bytes)
    → xs ++ y ∷ ys ≡ front ++ z ∷ []
    → (rest : Bytes) × (front ≡ xs ++ rest) × (y ∷ ys ≡ rest ++ z ∷ [])
cut [] front z y ys e = (front, refl, e)
cut (x ∷ []) [] z y ys e = absurd cc
cut (x ∷ w ∷ xs) [] z y ys e = absurd cc
cut (x ∷ xs) (f ∷ front) z y ys e =
    let t : xs ++ y ∷ ys ≡ front ++ z ∷ [] = cc in
    let h : f ≡ x = cc in
    let (rest, a, b) = cut xs front z y ys t in
    (rest, ap (◌∷◌ f) a ∙ ap (λ i. i ∷ (xs ++ rest)) h, b)

-- One read of a piece.
read_piece :
    (s : Session) (d e : Decoder) (out : List Decoded) (b : ℕ) (bs : Bytes) (ps : List Piece)
    (rs : List ReadEvent) (w : Bytes)
    → feed d (b ∷ take 4095 bs) ≡ some (e, out)
    → read_once (waiting s d [] (arriving ((b, bs) ∷ ps) rs) w)
      ≡ (ok tt, waiting s e out (arriving (kept (drop 4095 bs) ps) rs) w)
unfolding read_once read_with arriving take_fed
read_piece s d e out b bs ps rs w h = rw (h, unread-kept (drop 4095 bs) ps rs) refl

next_ready :
    (n : ℕ) (s : Session) (d : Decoder) (x : Decoded) (rs : List ReadEvent) (w : Bytes)
    → next_from n (waiting s d (x ∷ []) rs w) ≡ (ok x, waiting s d [] rs w)
unfolding next_from
next_ready zero s d x rs w = refl
next_ready (suc n) s d x rs w = refl

whole :
    (b : ℕ) (bs : Bytes) (ps : List Piece)
    → (b ∷ take 4095 bs) ++ joined (kept (drop 4095 bs) ps) ≡ joined ((b, bs) ∷ ps)
unfolding joined
whole b bs ps = ap (◌∷◌ b) (
    ap (λ t. take 4095 bs ++ t) (joined-kept (drop 4095 bs) ps)
    ∙ sym (append_assoc (take 4095 bs) (drop 4095 bs) (joined ps))
    ∙ ap (λ t. t ++ joined ps) (take-append-drop 4095 bs))

feed-whole :
    (d e f : Decoder) (x : Decoded) (front : Bytes) (z : ℕ)
    → feed d front ≡ some (e, [])
    → feed e (z ∷ []) ≡ some (f, x ∷ [])
    → feed d (front ++ z ∷ []) ≡ some (f, x ∷ [])
feed-whole d e f x front z h k = feed-append d front (z ∷ []) ∙ rw (h, k)

ends-nonempty : (front : Bytes) (z : ℕ) → [] ≡ front ++ z ∷ [] → ⊥
ends-nonempty [] z e = cc
ends-nonempty (y ∷ front) z e = cc

-- Each read takes a byte or an event off the script.
kept_left :
    (b : ℕ) (bs : Bytes) (ps : List Piece) (rs : List ReadEvent) (n : ℕ)
    → reads_left (arriving ((b, bs) ∷ ps) rs) ≤ suc n
    → reads_left (arriving (kept (drop 4095 bs) ps) rs) ≤ n
unfolding arriving reads_left bytes_left
kept_left b bs ps rs n h = omega (
  arith,
  h,
  (bytes_left-unread (drop 4095 bs) (arriving ps rs)).1,
  ap reads_left (unread-kept (drop 4095 bs) ps rs),
  taken bs,
)

-- Bytes that report an event with the last of them, in whatever pieces, give the event.
pub next_arriving :
    (n : ℕ) (s : Session) (d e f : Decoder) (x : Decoded) (front : Bytes) (z : ℕ) (ps : List Piece)
    (rs : List ReadEvent) (w : Bytes)
    → reads_left (arriving ps rs) ≤ n
    → joined ps ≡ front ++ z ∷ []
    → feed d front ≡ some (e, [])
    → feed e (z ∷ []) ≡ some (f, x ∷ [])
    → next_from n (waiting s d [] (arriving ps rs) w) ≡ (ok x, waiting s f [] rs w)
unfolding next_from
next_arriving n s d e f x front z [] rs w l j h k =
    absurd (unfold joined in ends-nonempty front z j)
next_arriving zero s d e f x front z ((b, bs) ∷ ps) rs w l j h k =
    absurd (unfold arriving reads_left bytes_left in omega (arith, l))
next_arriving (suc n) s d e f x front z ((b, bs) ∷ ps) rs w l j h k =
    go (next_arriving n s) (kept (drop 4095 bs) ps) refl
  where
    parts : (b ∷ take 4095 bs) ++ joined (kept (drop 4095 bs) ps) ≡ front ++ z ∷ []
    parts = whole b bs ps ∙ j

    go :
        ((d e f : Decoder) (x : Decoded) (front : Bytes) (z : ℕ) (ps : List Piece)
            (rs : List ReadEvent) (w : Bytes)
          → reads_left (arriving ps rs) ≤ n
          → joined ps ≡ front ++ z ∷ []
          → feed d front ≡ some (e, [])
          → feed e (z ∷ []) ≡ some (f, x ∷ [])
          → next_from n (waiting s d [] (arriving ps rs) w) ≡ (ok x, waiting s f [] rs w))
        → (qs : List Piece) → kept (drop 4095 bs) ps ≡ qs
        → next_from (suc n) (waiting s d [] (arriving ((b, bs) ∷ ps) rs) w)
          ≡ (ok x, waiting s f [] rs w)
    go ih [] q =
        let all : b ∷ take 4095 bs ≡ front ++ z ∷ [] =
          unfold joined in
          sym (append-nil _) ∙ ap (λ t. (b ∷ take 4095 bs) ++ joined t) (sym q) ∙ parts in
        rw
          (
            read_piece s d f (x ∷ []) b bs ps rs w
                (ap (feed d) all ∙ feed-whole d e f x front z h k),
            q,
          )
          (unfold arriving in next_ready n s f x rs w)
    go ih ((c, cs) ∷ qs) q =
        let (rest, a, r) =
          cut (b ∷ take 4095 bs) front z c (cs ++ joined qs)
            (unfold joined in ap (λ t. (b ∷ take 4095 bs) ++ joined t) (sym q) ∙ parts) in
        let (m, u, v) = feed-silent d e (b ∷ take 4095 bs) rest (ap (feed d) (sym a) ∙ h) in
        rw (read_piece s d m [] b bs ps rs w u) (
          ih m e f x rest z (kept (drop 4095 bs) ps) rs w (kept_left b bs ps rs n l)
            (ap joined q ∙ (unfold joined in r)) v k)
