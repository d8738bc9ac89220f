-- ===== src/Tests/GdbProto.antt =====
-- The unit tests of src/gdbproto.rs, and its theorems at concrete packets.
use nnd.Base.{◌+◌, ◌%◌, ◌^◌, ◌≡◌, refl, true, [], ◌∷◌, ◌++◌, some, arith, codes, Bytes, All}
use nnd.GdbProto.{
  packet, ack, nack, interrupt, idle, new, set_no_ack, checksum, hex_digit, encode_packet, escape,
  unescape, ok, hex_val, trailing_escape_byte, step_in, after, feed, got_checksum,
}
use nnd.GdbProto.Escape.{IsPlain, unescape-escape}
use nnd.GdbProto.Frame.{
  feed_bad_checksum, feed_bad_digits, feed-encode_all, feed-escape, encode_all, resting,
}

encode_known_packet :
    (encode_packet (codes "OK") ≡ codes "$OK#9a") × (encode_packet [] ≡ codes "$#00")
unfolding encode_packet checksum hex_digit
encode_known_packet = (refl, refl)

ack_nack_interrupt : feed new (codes "+-" ++ 3 ∷ []) ≡ some (new, ack ∷ nack ∷ interrupt ∷ [])
unfolding feed step_in new
ack_nack_interrupt = refl

no_ack_swallows_ack_bytes :
    feed (set_no_ack new true) (codes "+-$OK#9a")
    ≡ some (set_no_ack new true, packet (codes "OK") ∷ [])
unfolding feed step_in new set_no_ack
no_ack_swallows_ack_bytes = refl

escape_bad_trailing : unescape (0x7d ∷ []) ≡ trailing_escape_byte
unfolding unescape
escape_bad_trailing = refl

abbrev odd_bytes : Bytes
odd_bytes = 0x00 ∷ 0x23 ∷ 0x24 ∷ 0x7d ∷ 0x7e ∷ 0xff ∷ b'A' ∷ []

unescape-escape_example :
    (unescape (escape odd_bytes) ≡ ok odd_bytes) × All IsPlain (escape odd_bytes)
unescape-escape_example = unescape-escape odd_bytes (omega arith)

feed-escape_example :
    (q : Bytes) × (feed new (encode_packet (escape odd_bytes)) ≡ some (new, packet q ∷ []))
    × (unescape q ≡ ok odd_bytes)
unfolding new
feed-escape_example = feed-escape new odd_bytes refl refl (omega arith)

feed-encode_all_example :
    feed new (encode_all (codes "vCont?" ∷ codes "OK" ∷ []))
    ≡ some (new, packet (codes "vCont?") ∷ packet (codes "OK") ∷ [])
unfolding new
feed-encode_all_example =
    feed-encode_all new (codes "vCont?" ∷ codes "OK" ∷ []) refl refl (ground arith)

-- The digits `9b` do not fit `OK`, whose checksum is 0x9a.
feed_bad_checksum_example :
    feed new (b'$' ∷ (codes "OK" ++ b'#' ∷ b'9' ∷ b'b' ∷ []))
    ≡ feed
        (record new {
          state = idle;
          payload = [];
          bad_checksums = (new.bad_checksums + 1) % 2 ^ 64;
        })
        []
unfolding new got_checksum checksum
feed_bad_checksum_example =
    feed_bad_checksum new (codes "OK") b'9' b'b' [] refl (ground arith) (omega arith)

feed_bad_digits_example :
    feed new (b'$' ∷ ([] ++ b'#' ∷ b'z' ∷ b'z' ∷ []))
    ≡ after (packet [] ∷ []) (feed (resting new) [])
unfolding new hex_val checksum
feed_bad_digits_example = feed_bad_digits new [] b'z' b'z' [] refl tt refl refl refl
