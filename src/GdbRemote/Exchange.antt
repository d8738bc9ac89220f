-- ===== src/GdbRemote/Exchange.antt =====
-- Whole exchanges of src/gdb_remote.rs with a stub that answers: requests out, frames in.
use nnd.Base.{
  ℕ, suc, ◌+◌, ◌≡◌, refl, ap, sym, ◌∙◌, true, not, List, [], ◌∷◌, ◌++◌, some, arith, Bytes,
  append-nil, append_assoc, Bool-cases, inl, inr, if◌then◌else◌,
}
use nnd.GdbProto.{packet, encode_packet, feed}
use nnd.GdbProto.Frame.{
  feed-encode_all, IsPayload, frame_front, frame_last, frame_parts, feed-frame_front,
}
use nnd.GdbProto.Stream.{after-nil, feed-append}
use nnd.GdbRemote.Arrival.{Session, quiet, Piece, joined, arriving, next_arriving}
use nnd.GdbRemote.Connection.{
  ReadEvent, write_with, write_all, next_decoded, ack_packet, reads_left,
}
use nnd.GdbRemote.Result.{ok}
use nnd.GdbRemote.Waiting.{reply_from, wait_reply, send_packet}

-- What the client writes in an exchange: the request, and the acknowledgement of the reply.
abbrev pub exchanged : Session → Bytes → Bytes
exchanged s request = encode_packet request ++ (if not s.no_ack then b'+' ∷ [] else [])

-- A frame in whatever pieces is taken as one packet.
next_frame :
    (s : Session) (r : Bytes) (ps : List Piece) (rs : List ReadEvent) (w : Bytes)
    → IsPayload r
    → joined ps ≡ encode_packet r
    → next_decoded (quiet s (arriving ps rs) w) ≡ (ok (packet r), quiet s rs w)
unfolding next_decoded
next_frame s r ps rs w h j =
    let (e, u) = feed-frame_front s.decoder r s.is_idle h in
    let all : feed s.decoder (encode_packet r) ≡ some (s.decoder, packet r ∷ []) =
      rw append-nil at (feed-encode_all s.decoder (r ∷ []) s.is_idle s.is_empty (h, tt)) in
    let v : feed e (frame_last r ∷ []) ≡ some (s.decoder, packet r ∷ []) =
      sym (after-nil (feed e (frame_last r ∷ [])))
      ∙ sym (feed-append s.decoder (frame_front r) (frame_last r ∷ []) ∙ rw u)
      ∙ ap (feed s.decoder) (sym (frame_parts r))
      ∙ all in
    next_arriving (reads_left (arriving ps rs)) s s.decoder e s.decoder (packet r) (frame_front r)
      (frame_last r) ps rs w (omega arith) (j ∙ frame_parts r) u v

ack_quiet :
    (s : Session) (rs : List ReadEvent) (w : Bytes)
    → ack_packet (quiet s rs w)
      ≡ (ok tt, quiet s rs (w ++ (if not s.no_ack then b'+' ∷ [] else [])))
unfolding ack_packet write_all
ack_quiet s rs w = elim (Bool-cases s.no_ack) [
  | inl e ↦ rw e (ap (λ v. (ok tt, record (quiet s rs v) { no_ack = true })) (sym (append-nil w)))
  | inr e ↦ rw e refl
]

reply_frame :
    (k : ℕ) (s : Session) (r : Bytes) (ps : List Piece) (rs : List ReadEvent) (w : Bytes)
    → IsPayload r
    → joined ps ≡ encode_packet r
    → reply_from (k + 1) (quiet s (arriving ps rs) w)
      ≡ (ok r, quiet s rs (w ++ (if not s.no_ack then b'+' ∷ [] else [])))
unfolding reply_from
reply_frame k s r ps rs w h j =
    let e : k + 1 ≡ suc k = omega arith in
    rw e (rw (next_frame s r ps rs w h j) (rw (ack_quiet s rs w)))

-- The client waits for nothing, every write succeeds, and the stub answers in one frame without `$`
-- and `#` in its payload, which arrives in pieces of any lengths but zero: `send_packet` writes the
-- request as one packet, gives the reply, acknowledges it unless in no-ack mode, leaves the reads
-- behind the frame, and the client waits for nothing again.
pub send_packet_answered :
    (s : Session) (request r : Bytes) (ps : List Piece) (rs : List ReadEvent) (w : Bytes)
    → IsPayload r
    → joined ps ≡ encode_packet r
    → send_packet request (quiet s (arriving ps rs) w)
      ≡ (ok r, quiet s rs (w ++ exchanged s request))
unfolding send_packet write_all write_with wait_reply
send_packet_answered s request r ps rs w h j =
    reply_frame _ s r ps rs (w ++ encode_packet request) h j
    ∙ ap (λ v. (ok r, quiet s rs v)) (append_assoc w (encode_packet request) _)
