-- ===== src/GdbRemote/Connection.antt =====
-- The connection of src/gdb_remote.rs: bytes out, decoded events in. The socket is
-- a script: what each read gives, and what each write meets. Timeouts change when a read gives up,
-- which is part of the script; setting them always succeeds.
use nnd.Base.{
  ℕ, zero, suc, ◌+◌, Bool, true, false, ◌==◌, ◌||◌, not, if◌then◌else◌, List, [], ◌∷◌, ◌++◌, Option,
  none, some, take, drop, Bytes, length,
}
use nnd.GdbProto
use nnd.GdbProto.{Decoder, Decoded, packet, encode_packet, feed}
use nnd.GdbRemote.Result.{
  IoError, would_block, timed_out, GdbError, io, protocol, Result, ok, err, panicked, stuck,
  connection_closed,
}

-- What has come when the client reads: bytes, none of them if the peer has closed, or a failure.
pub data ReadEvent : Type 0 where
  received : Bytes → ReadEvent
  read_failed : IoError → ReadEvent

-- What one `write_all` meets: a failure after some of the bytes, or none.
pub data WriteEvent : Type 0 where
  wrote : WriteEvent
  write_failed : ℕ → IoError → WriteEvent

-- Past the end of the scripts a read times out and a write succeeds.
pub record TcpStream : Type 0 where
  pub reads : List ReadEvent
  pub writes : List WriteEvent
  pub written : Bytes

pub record GdbRemote : Type 0 where
  pub stream : TcpStream
  pub decoder : Decoder
  pub no_ack : Bool
  pub packet_size : ℕ
  pub qsupported : Bytes
  pub pending : List Decoded
  pub orphan_replies : List Bytes
  pub resume_in_flight : Bool

-- A method changes the client also where it fails.
abbrev pub M : Type 0 → Type 0
M A = GdbRemote → Result A × GdbRemote

abbrev pub then_in : {A B : Type 0} → Result A × GdbRemote → (A → M B) → Result B × GdbRemote
then_in (ok a, c) f = f a c
then_in (err e, c) f = (err e, c)
then_in (panicked, c) f = (panicked, c)
then_in (stuck, c) f = (stuck, c)

infixl 5 ◌>>=◌ ◌>>◌
abbrev pub ◌>>=◌ : {A B : Type 0} → M A → (A → M B) → M B
◌>>=◌ m f c = then_in (m c) f

abbrev pub ◌>>◌ : {B : Type 0} → M (Unit {0}) → M B → M B
m >> k = m >>= λ _. k

abbrev pub pure : {A : Type 0} → A → M A
pure a c = (ok a, c)

abbrev pub fail : {A : Type 0} → GdbError → M A
fail e c = (err e, c)

abbrev pub lift : {A : Type 0} → Result A → M A
lift r c = (r, c)

-- `connect` on a stream that is open.
unfoldable pub connect : TcpStream → GdbRemote
connect stream = record {
  stream = stream;
  decoder = GdbProto.new;
  no_ack = false;
  packet_size = 0x4000;
  qsupported = [];
  pending = [];
  orphan_replies = [];
  resume_in_flight = false;
}

unfoldable pub write_with : List WriteEvent → Bytes → M (Unit {0})
write_with [] bytes c =
    (ok tt, record c { stream = record (c.stream) { written = c.stream.written ++ bytes } })
write_with (wrote ∷ ws) bytes c = (
  ok tt,
  record c { stream = record (c.stream) { writes = ws; written = c.stream.written ++ bytes } },
)
write_with (write_failed n e ∷ ws) bytes c = (
  err (io e),
  record c {
    stream = record (c.stream) { writes = ws; written = c.stream.written ++ take n bytes };
  },
)

-- `write_all` and `flush`, which does nothing on a socket.
unfoldable pub write_all : Bytes → M (Unit {0})
unfolding write_with
write_all bytes c = write_with c.stream.writes bytes c

unfoldable pub mark_resume_in_flight : M (Unit {0})
mark_resume_in_flight c = (ok tt, record c { resume_in_flight = true })

unfoldable pub is_stop : Bytes → Bool
is_stop [] = false
is_stop (b ∷ bs) = b == b'T' || b == b'S' || b == b'W' || b == b'X'

unfoldable pub clear_resume_if_stop : Bytes → M (Unit {0})
clear_resume_if_stop payload c =
    if not c.resume_in_flight
    then (ok tt, c)
    else if is_stop payload
    then (ok tt, record c { resume_in_flight = false })
    else (ok tt, c)

-- What the decoder completed goes to the end of `pending`.
unfoldable pub take_fed :
    GdbRemote → Option (Decoder × List Decoded) → Result (Unit {0}) × GdbRemote
take_fed c none = (panicked, c)
take_fed c (some (d, out)) = (ok tt, record c { decoder = d; pending = c.pending ++ out })

-- The bytes that a read has left in the socket.
unfoldable pub unread : Bytes → List ReadEvent → List ReadEvent
unread [] rs = rs
unread (b ∷ bs) rs = received (b ∷ bs) ∷ rs

-- A read takes no more than its buffer of 4096 bytes holds.
unfoldable pub read_with : List ReadEvent → M (Unit {0})
unfolding take_fed unread
read_with [] c = (err (io would_block), c)
read_with (read_failed e ∷ rs) c =
    (err (io e), record c { stream = record (c.stream) { reads = rs } })
read_with (received [] ∷ rs) c =
    (err (protocol connection_closed), record c { stream = record (c.stream) { reads = rs } })
read_with (received (b ∷ bs) ∷ rs) c =
    take_fed (record c { stream = record (c.stream) { reads = unread (drop 4095 bs) rs } })
      (feed c.decoder (b ∷ take 4095 bs))

unfoldable pub read_once : M (Unit {0})
read_once c = read_with c.stream.reads c

abbrev pub is_timeout : GdbError → Bool
is_timeout (io would_block) = true
is_timeout (io timed_out) = true
is_timeout _ = false

-- The bytes that the script still holds.
unfoldable pub bytes_left : List ReadEvent → ℕ
bytes_left [] = 0
bytes_left (received bs ∷ rs) = length bs + bytes_left rs
bytes_left (read_failed e ∷ rs) = bytes_left rs

-- The reads that the script has for at most: each takes a byte off it, or an event.
unfoldable pub reads_left : List ReadEvent → ℕ
unfolding bytes_left
reads_left rs = length rs + bytes_left rs

-- One round of `drain_ready`.
unfoldable pub drain_round :
    M (Unit {0}) → Result (Unit {0}) × GdbRemote → Result (Unit {0}) × GdbRemote
drain_round again (ok _, c) = again c
drain_round again (err e, c) = if is_timeout e then (ok tt, c) else (err e, c)
drain_round again (panicked, c) = (panicked, c)
drain_round again (stuck, c) = (stuck, c)

unfoldable pub drain_from : ℕ → M (Unit {0})
unfolding drain_round
drain_from zero c = (stuck, c)
drain_from (suc fuel) c = drain_round (drain_from fuel) (read_once c)

-- Each round but the last is one of the reads.
unfoldable pub drain_ready : M (Unit {0})
unfolding reads_left
drain_ready c = drain_from (reads_left c.stream.reads + 1) c

-- One round of `next_decoded`.
unfoldable pub next_round : M Decoded → List Decoded → M Decoded
next_round again [] c = then_in (read_once c) (λ _. again)
next_round again (d ∷ ds) c = (ok d, record c { pending = ds })

unfoldable pub next_from : ℕ → M Decoded
unfolding next_round
next_from zero c = next_round (λ c'. (stuck, c')) c.pending c
next_from (suc fuel) c = next_round (next_from fuel) c.pending c

-- Each round but the last is one of the reads.
unfoldable pub next_decoded : M Decoded
unfolding reads_left
next_decoded c = next_from (reads_left c.stream.reads) c

unfoldable pub ack_packet : M (Unit {0})
ack_packet c = if not c.no_ack then write_all (b'+' ∷ []) c else (ok tt, c)

-- The events that may still come.
unfoldable pub events_left : GdbRemote → ℕ
unfolding bytes_left
events_left c = length c.pending + bytes_left c.stream.reads
