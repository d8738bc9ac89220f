-- ===== src/GdbRemote/Ready.antt =====
-- The client of src/gdb_remote.rs on any script of reads and writes: the connection does not panic,
-- and the loops of the model have fuel enough, since each round takes an event off the script.
use nnd.Base.{
  ℕ, zero, suc, ◌+◌, ◌≤◌, ◌<◌, ◌≡◌, refl, ap, ◌∙◌, not, List, [], ◌∷◌, Option, none, some, arith,
  Bytes, length, length-append, length-take, length-drop, take, drop, Bool, if◌then◌else◌,
}
use nnd.GdbProto.{Decoder, Decoded, packet, ack, nack, interrupt, encode_packet, feed}
use nnd.GdbProto.Invariant
use nnd.GdbProto.Sound.{IsSound, feed-IsSound}
use nnd.GdbRemote.Result.{Result, ok, err, panicked, stuck}
use nnd.GdbRemote.Connection.{
  ReadEvent, received, read_failed, WriteEvent, wrote, write_failed, GdbRemote, M, then_in,
  write_with, write_all, take_fed, read_with, read_once, next_round, next_from, next_decoded,
  ack_packet, unread, bytes_left, reads_left, events_left,
}
use nnd.GdbRemote.Waiting.{reply_round, reply_from, wait_reply_in, wait_reply, send_packet}
use nnd.GdbRemote.Commands.{replies_left}

-- The decoder is in the middle of a stream.
abbrev pub IsReady : GdbRemote → Type 0
IsReady c = IsSound c.decoder

-- A call returns, with a value as said or with an error of the code, and the client is ready.
abbrev pub Ends : {A : Type 0} → (A → GdbRemote → Type 0) → Result A × GdbRemote → Type 0
Ends P (ok a, c) = IsReady c × P a c
Ends P (err e, c) = IsReady c
Ends P (panicked, c) = ⊥
Ends P (stuck, c) = ⊥

pub then_in-Ends :
    {A B : Type 0} (P : A → GdbRemote → Type 0) (Q : B → GdbRemote → Type 0)
    (r : Result A × GdbRemote) (f : A → M B)
    → Ends P r
    → ((a : A) (c : GdbRemote) → IsReady c → P a c → Ends Q (f a c))
    → Ends Q (then_in r f)
then_in-Ends P Q (ok a, c) f (i, p) k = k a c i p
then_in-Ends P Q (err e, c) f i k = i
then_in-Ends P Q (panicked, c) f i k = i
then_in-Ends P Q (stuck, c) f i k = i

pub Ends-mono :
    {A : Type 0} (P Q : A → GdbRemote → Type 0) (r : Result A × GdbRemote)
    → ((a : A) (c : GdbRemote) → P a c → Q a c)
    → Ends P r
    → Ends Q r
Ends-mono P Q (ok a, c) k (i, p) = (i, k a c p)
Ends-mono P Q (err e, c) k i = i
Ends-mono P Q (panicked, c) k i = i
Ends-mono P Q (stuck, c) k i = i

pub if-Ends :
    {A : Type 0} (P : A → GdbRemote → Type 0) (b : Bool) (r s : Result A × GdbRemote)
    → Ends P r
    → Ends P s
    → Ends P (if b then r else s)
if-Ends P Bool.true r s h k = h
if-Ends P Bool.false r s h k = k

-- What the events and the stashed replies of the client are when a write is done.
abbrev pub SameIn : GdbRemote → GdbRemote → Type 0
SameIn c d =
    (events_left d ≡ events_left c)
    × (replies_left d ≡ replies_left c)
    × (d.orphan_replies ≡ c.orphan_replies)

write_with-Ends :
    (ws : List WriteEvent) (bytes : Bytes) (c : GdbRemote)
    → IsReady c
    → Ends (λ _ d. SameIn c d) (write_with ws bytes c)
unfolding write_with events_left replies_left
write_with-Ends [] bytes c i = (i, (refl, refl, refl))
write_with-Ends (wrote ∷ ws) bytes c i = (i, (refl, refl, refl))
write_with-Ends (write_failed n e ∷ ws) bytes c i = i

pub write_all-Ends :
    (bytes : Bytes) (c : GdbRemote) → IsReady c → Ends (λ _ d. SameIn c d) (write_all bytes c)
unfolding write_all
write_all-Ends bytes c i = write_with-Ends c.stream.writes bytes c i

pub ack_packet-Ends : (c : GdbRemote) → IsReady c → Ends (λ _ d. SameIn c d) (ack_packet c)
unfolding ack_packet
ack_packet-Ends c i =
    if-Ends (λ _ d. SameIn c d) (not c.no_ack) _ _ (write_all-Ends (b'+' ∷ []) c i)
      (i, (refl, refl, refl))

-- A read takes a byte or an event off the script, and brings no more events than bytes.
abbrev Shorter : GdbRemote → GdbRemote → Type 0
Shorter c d =
    (reads_left d.stream.reads < reads_left c.stream.reads)
    × (d.orphan_replies ≡ c.orphan_replies)
    × (events_left d ≤ events_left c)

take_fed-Ends :
    (c : GdbRemote) (n : ℕ) (r : Option (Decoder × List Decoded))
    → Invariant.Returns (λ e out. IsSound e × (length out ≤ n)) r
    → Ends
        (λ _ d.
          (d.stream.reads ≡ c.stream.reads)
          × (d.orphan_replies ≡ c.orphan_replies)
          × (length d.pending ≤ length c.pending + n))
        (take_fed c r)
unfolding take_fed
take_fed-Ends c n none q = q
take_fed-Ends c n (some (e, out)) q =
    (q.0, (refl, refl, omega (arith, q.1, length-append c.pending out)))

pub bytes_left-unread :
    (bs : Bytes) (rs : List ReadEvent)
    → (bytes_left (unread bs rs) ≡ length bs + bytes_left rs)
      × (reads_left (unread bs rs) ≤ 1 + length bs + reads_left rs)
unfolding unread bytes_left reads_left
bytes_left-unread [] rs = (omega arith, omega arith)
bytes_left-unread (b ∷ bs) rs = (refl, omega arith)

-- What a read has taken and what it has left make up the bytes.
pub taken : (bs : Bytes) → length (take 4095 bs) + length (drop 4095 bs) ≡ length bs
taken bs = omega (arith, length-take 4095 bs, length-drop 4095 bs)

read_once-Ends : (c : GdbRemote) → IsReady c → Ends (λ _ d. Shorter c d) (read_once c)
unfolding read_once read_with events_left reads_left
read_once-Ends c i = go c.stream.reads refl
  where
    go : (rs : List ReadEvent) → c.stream.reads ≡ rs → Ends (λ _ d. Shorter c d) (read_with rs c)
    go [] e = i
    go (read_failed x ∷ rs) e = i
    go (received [] ∷ rs) e = i
    go (received (b ∷ bs) ∷ rs) e =
        let c' : GdbRemote = record c {
          stream = record (c.stream) { reads = unread (drop 4095 bs) rs };
        } in
        let left = bytes_left-unread (drop 4095 bs) rs in
        Ends-mono _ (λ _ d. Shorter c d) (take_fed c' (feed c.decoder (b ∷ take 4095 bs)))
          (λ _ d q. (
            omega (arith, ap reads_left q.0, ap reads_left e, left.1, taken bs),
            q.1,
            omega (arith, ap bytes_left q.0, ap bytes_left e, q.2, left.0, taken bs),
          ))
          (take_fed-Ends c' (length (b ∷ take 4095 bs)) (feed c.decoder (b ∷ take 4095 bs))
            (feed-IsSound c.decoder (b ∷ take 4095 bs) i))

-- One event fewer, and the stashed replies as they were.
abbrev pub Fewer : GdbRemote → GdbRemote → Type 0
Fewer c d = (events_left d < events_left c) × (d.orphan_replies ≡ c.orphan_replies)

next_from-Ends :
    (fuel : ℕ) (c : GdbRemote)
    → reads_left c.stream.reads ≤ fuel
    → IsReady c
    → Ends (λ _ d. Fewer c d) (next_from fuel c)
unfolding next_from
next_from-Ends zero c h i = go c.pending refl
  where
    go :
        (ds : List Decoded)
        → c.pending ≡ ds
        → Ends (λ _ d. Fewer c d) (next_round (λ c'. (stuck, c')) ds c)
    go [] e =
        then_in-Ends (λ _ d. Shorter c d) (λ _ d. Fewer c d) (read_once c) _ (read_once-Ends c i)
          (λ _ d j q. absurd (omega (arith, q.0)))
    go (x ∷ ds) e = (i, (unfold events_left in omega (arith, ap length e), refl))
next_from-Ends (suc fuel) c h i = go (λ d. next_from-Ends fuel d) c.pending refl
  where
    go :
        ((d : GdbRemote)
          → reads_left d.stream.reads ≤ fuel
          → IsReady d
          → Ends (λ _ e. Fewer d e) (next_from fuel d))
        → (ds : List Decoded) → c.pending ≡ ds
        → Ends (λ _ d. Fewer c d) (next_round (next_from fuel) ds c)
    go ih [] e =
        then_in-Ends (λ _ d. Shorter c d) (λ _ d. Fewer c d) (read_once c) _ (read_once-Ends c i)
          (λ _ d j q.
            Ends-mono (λ _ e. Fewer d e) (λ _ e. Fewer c e) (next_from fuel d)
              (λ _ f p. (omega (arith, p.0, q.2), p.1 ∙ q.1)) (ih d (omega (arith, q.0)) j))
    go ih (x ∷ ds) e = (i, (unfold events_left in omega (arith, ap length e), refl))

pub next_decoded-Ends : (c : GdbRemote) → IsReady c → Ends (λ _ d. Fewer c d) (next_decoded c)
unfolding next_decoded
next_decoded-Ends c i = next_from-Ends (reads_left c.stream.reads) c (omega arith) i

reply_from-Ends :
    (fuel : ℕ) (c : GdbRemote)
    → events_left c < fuel
    → IsReady c
    → Ends (λ _ d. Fewer c d) (reply_from fuel c)
unfolding reply_from
reply_from-Ends zero c h i = absurd (omega arith)
reply_from-Ends (suc fuel) c h i =
    then_in-Ends (λ _ d. Fewer c d) (λ _ d. Fewer c d) (next_decoded c) _ (next_decoded-Ends c i)
      (λ x d j q. round x d j q (
        Ends-mono (λ _ e. Fewer d e) (λ _ e. Fewer c e) (reply_from fuel d)
          (λ _ e p. (omega (arith, p.0, q.0), p.1 ∙ q.1))
          (reply_from-Ends fuel d (omega (arith, q.0)) j)))
  where
    round :
        (x : Decoded) (d : GdbRemote)
        → IsReady d
        → Fewer c d
        → Ends (λ _ e. Fewer c e) (reply_from fuel d)
        → Ends (λ _ e. Fewer c e) (reply_round (reply_from fuel) x d)
    round (packet p) d j q k =
        then_in-Ends (λ _ e. SameIn d e) (λ _ e. Fewer c e) (ack_packet d) _ (ack_packet-Ends d j)
          (λ _ e i' s. (i', (omega (arith, q.0, s.0), s.2 ∙ q.1)))
    round ack d j q k = k
    round nack d j q k = k
    round interrupt d j q k = k

-- A reply was taken.
abbrev pub Answered : GdbRemote → GdbRemote → Type 0
Answered c d = replies_left d < replies_left c

wait_reply-Ends : (c : GdbRemote) → IsReady c → Ends (λ _ d. Answered c d) (wait_reply c)
unfolding wait_reply replies_left
wait_reply-Ends c i = go c.orphan_replies refl
  where
    go : (ps : List Bytes) → c.orphan_replies ≡ ps → Ends (λ _ d. Answered c d) (wait_reply_in ps c)
    go [] e =
        Ends-mono (λ _ d. Fewer c d) (λ _ d. Answered c d) (reply_from (events_left c + 1) c)
          (λ _ d q. omega (arith, q.0, ap length q.1))
          (reply_from-Ends (events_left c + 1) c (omega arith) i)
    go (p ∷ ps) e = (i, unfold events_left in omega (arith, ap length e))

-- On any script, with a decoder in the middle of any stream, sending a request and
-- waiting for its reply never panics and never waits past the script: it gives a reply, which is
-- then off the script, or an error of the code.
pub send_packet-Ends :
    (payload : Bytes) (c : GdbRemote)
    → IsReady c
    → Ends (λ _ d. Answered c d) (send_packet payload c)
unfolding send_packet
send_packet-Ends payload c i =
    if-Ends (λ _ d. Answered c d) c.resume_in_flight _ _ i
      (then_in-Ends (λ _ d. SameIn c d) (λ _ d. Answered c d) (write_all (encode_packet payload) c)
        _ (write_all-Ends (encode_packet payload) c i)
        (λ _ d j s.
          Ends-mono (λ _ e. Answered d e) (λ _ e. Answered c e) (wait_reply d)
            (λ _ e q. omega (arith, q, s.1)) (wait_reply-Ends d j)))
