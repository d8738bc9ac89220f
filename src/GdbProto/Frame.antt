-- ===== src/GdbProto/Frame.antt =====
-- Whole packets through the decoder of src/gdbproto.rs, with any bytes behind them.
use nnd.Base.{
  ℕ, ◌+◌, ◌/◌, ◌%◌, ◌^◌, ◌≡◌, ◌≢◌, refl, sym, ◌∙◌, ==_iff, ne→==, List, [], ◌∷◌, ◌++◌, map,
  append_assoc, append-nil, some, none, arith, Bytes, IsByte, All,
}
use nnd.GdbProto.{
  idle, in_data, in_checksum, Decoder, hex_digit, hex_val, packet, checksum, got_checksum,
  encode_packet, escape, unescape, ok, step_in, finish_packet, after, feed,
}
use nnd.GdbProto.Digits.{got_checksum-hex_digit, checksum-IsByte}
use nnd.GdbProto.Escape.{IsPlain, unescape-escape}
use nnd.GdbProto.Stream.{after-nil}
use nnd.GdbProto.Received.{IsUnframed}

-- The decoder between two packets, with its buffer empty.
abbrev pub resting : Decoder → Decoder
resting d = record d { state = idle; payload = [] }

feed-payload :
    (d : Decoder) (p rest : Bytes)
    → All IsUnframed p
    → feed (record d { state = in_data }) (p ++ rest)
      ≡ feed (record d { state = in_data; payload = d.payload ++ p }) rest
unfolding feed step_in
feed-payload d [] rest h = rw append-nil
feed-payload d (b ∷ p) rest h =
    rw (h.0.1, h.0.0, after-nil)
      (feed-payload (record d { payload = d.payload ++ b ∷ [] }) p rest h.1 ∙ rw append_assoc)

-- A frame with the digits `c0` and `c1` is taken up to its last byte.
feed_frame :
    (d : Decoder) (p : Bytes) (c0 c1 : ℕ) (rest : Bytes)
    → d.state ≡ idle
    → All IsUnframed p
    → feed d (b'$' ∷ (p ++ b'#' ∷ c0 ∷ c1 ∷ rest))
      ≡ after (finish_packet (record d { state = in_checksum c0 c1 1; payload = p }) c0 c1).1 (
          feed (finish_packet (record d { state = in_checksum c0 c1 1; payload = p }) c0 c1).0 rest)
unfolding feed step_in
feed_frame d p c0 c1 rest s h =
    rw (s, after-nil)
      (feed-payload (record d { payload = [] }) p (b'#' ∷ c0 ∷ c1 ∷ rest) h ∙ simp after-nil)

-- The last byte of a frame that the encoder writes, and the bytes in front of it.
abbrev pub frame_front : Bytes → Bytes
frame_front p = b'$' ∷ (p ++ b'#' ∷ hex_digit (checksum p / 16) ∷ [])

abbrev pub frame_last : Bytes → ℕ
frame_last p = hex_digit (checksum p % 16)

pub frame_parts : (p : Bytes) → encode_packet p ≡ frame_front p ++ frame_last p ∷ []
unfolding encode_packet
frame_parts p = rw append_assoc

-- Nothing is reported in front of the last byte of a frame.
pub feed-frame_front :
    (d : Decoder) (p : Bytes)
    → d.state ≡ idle
    → All IsUnframed p
    → (e : Decoder) × (feed d (frame_front p) ≡ some (e, []))
unfolding feed step_in
feed-frame_front d p s h = (
  record d { state = in_checksum (hex_digit (checksum p / 16)) 0 1; payload = p },
  rw (s, after-nil)
      (feed-payload (record d { payload = [] }) p (b'#' ∷ hex_digit (checksum p / 16) ∷ []) h
        ∙ simp after-nil),
)

-- The frame that the encoder writes gives the packet, and the decoder goes on with what follows.
feed_encoded :
    (d : Decoder) (p rest : Bytes)
    → d.state ≡ idle
    → All IsUnframed p
    → feed d (encode_packet p ++ rest) ≡ after (packet p ∷ []) (feed (resting d) rest)
unfolding encode_packet finish_packet
feed_encoded d p rest s h = rw append_assoc (
    feed_frame d p (hex_digit (checksum p / 16)) (hex_digit (checksum p % 16)) rest s h
    ∙ rw ((==_iff _ _).1 (got_checksum-hex_digit (checksum p) (checksum-IsByte p))))

-- A decoder between two packets counts and drops a frame whose payload has no `$` and no `#` and
-- whose two digits give another checksum than the payload has, and goes on with what follows.
pub feed_bad_checksum :
    (d : Decoder) (p : Bytes) (c0 c1 : ℕ) (rest : Bytes)
    → d.state ≡ idle
    → All IsUnframed p
    → got_checksum c0 c1 ≢ checksum p
    → feed d (b'$' ∷ (p ++ b'#' ∷ c0 ∷ c1 ∷ rest))
      ≡ feed
          (record d { state = idle; payload = []; bad_checksums = (d.bad_checksums + 1) % 2 ^ 64 })
          rest
unfolding finish_packet
feed_bad_checksum d p c0 c1 rest s h ne =
    feed_frame d p c0 c1 rest s h ∙ rw (ne→== _ _ ne, after-nil)

got_checksum-none : (c0 c1 : ℕ) → hex_val c0 ≡ none → hex_val c1 ≡ none → got_checksum c0 c1 ≡ 0
unfolding got_checksum
got_checksum-none c0 c1 h0 h1 = ground arith

-- Characters that are no hexadecimal digits count as zeros: a decoder between two packets accepts a
-- frame that ends in any two of them when its payload has no `$` and no `#` and its bytes add up to
-- zero.
pub feed_bad_digits :
    (d : Decoder) (p : Bytes) (c0 c1 : ℕ) (rest : Bytes)
    → d.state ≡ idle
    → All IsUnframed p
    → hex_val c0 ≡ none
    → hex_val c1 ≡ none
    → checksum p ≡ 0
    → feed d (b'$' ∷ (p ++ b'#' ∷ c0 ∷ c1 ∷ rest)) ≡ after (packet p ∷ []) (feed (resting d) rest)
unfolding finish_packet
feed_bad_digits d p c0 c1 rest s h h0 h1 z =
    feed_frame d p c0 c1 rest s h ∙ rw ((==_iff _ _).1 (got_checksum-none c0 c1 h0 h1 ∙ sym z))

-- The frames of several packets, one behind the other.
abbrev pub encode_all : List Bytes → Bytes
encode_all [] = []
encode_all (p ∷ ps) = encode_packet p ++ encode_all ps

abbrev pub IsPayload : Bytes → Type 0
IsPayload p = All IsUnframed p

resting-eq : (d : Decoder) → d.state ≡ idle → d.payload ≡ [] → resting d ≡ d
resting-eq d s e = ground arith

-- A decoder between two packets, with no payload, that is fed the frames of packets without `$` and
-- `#` reports these packets in order and nothing else, and is as it was.
pub feed-encode_all :
    (d : Decoder) (ps : List Bytes)
    → d.state ≡ idle
    → d.payload ≡ []
    → All IsPayload ps
    → feed d (encode_all ps) ≡ some (d, map packet ps)
feed-encode_all d [] s e h = unfold feed in refl
feed-encode_all d (p ∷ ps) s e h =
    feed_encoded d p (encode_all ps) s h.0 ∙ rw (resting-eq d s e, feed-encode_all d ps s e h.1)

IsPlain-IsUnframed : (bytes : Bytes) → All IsPlain bytes → All IsUnframed bytes
IsPlain-IsUnframed [] h = tt
IsPlain-IsUnframed (b ∷ bytes) h = ((ground arith, ground arith), IsPlain-IsUnframed bytes h.1)

-- Any bytes whatever go through the wire once they are escaped: the frame of their escaped form is
-- reported as one packet, and unescaping that packet gives the bytes.
pub feed-escape :
    (d : Decoder) (bytes : Bytes)
    → d.state ≡ idle
    → d.payload ≡ []
    → All IsByte bytes
    → (q : Bytes) × (feed d (encode_packet (escape bytes)) ≡ some (d, packet q ∷ []))
      × (unescape q ≡ ok bytes)
feed-escape d bytes s e h =
    let (back, plain) = unescape-escape bytes h in
    (
      escape bytes,
      rw append-nil at
          (feed-encode_all d (escape bytes ∷ []) s e (IsPlain-IsUnframed (escape bytes) plain, tt)),
      back,
    )
