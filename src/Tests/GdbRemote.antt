-- ===== src/Tests/GdbRemote.antt =====
-- The unit tests of src/gdb_remote.rs, and its theorems at concrete packets and scripts.
use nnd.Base.{ℕ, ◌≡◌, refl, true, false, inl, [], ◌∷◌, ◌++◌, List, none, some, arith, codes, Bytes}
use nnd.GdbProto.{new, encode_packet, hex_digit, checksum}
use nnd.GdbProto.Sound.{new-IsSound}
use nnd.GdbRemote.Arrival.{Session, quiet, Piece, joined, arriving}
use nnd.GdbRemote.Commands.{cont, step}
use nnd.GdbRemote.Resume.{Resumed, action_text, cont-step-Resumed}
use nnd.GdbRemote.StopText.{parse_stop_reply_ascii, parse_stop_reply-panicked}
use nnd.GdbRemote.Yields.{Yields}
use nnd.GdbRemote.Connection.{received, GdbRemote, connect}
use nnd.GdbRemote.Commands.{read_mem}
use nnd.GdbRemote.Exchange.{exchanged, send_packet_answered}
use nnd.GdbRemote.Hex.{
  hex_encode, hex_decode, parse_u64_hex, from_str_radix, radix_digits, to_digit,
}
use nnd.GdbRemote.HexLaws.{hex_decode-hex_encode}
use nnd.GdbRemote.ReadMem.{chunks, Arrives, all_reads, mem_written, read_mem_answered}
use nnd.GdbRemote.Ready.{Ends, Answered, send_packet-Ends}
use nnd.GdbRemote.Result.{Result, panicked, ok}
use nnd.GdbRemote.StopReply.{
  signal, sw_break, hw_break, watch, StopInfo, StopKind, parse_stop_reply,
}
use nnd.GdbRemote.StopReply.{
  parse_stop_text, parse_fields, parse_field, parse_thread, thread_text, watch_addr,
}
use nnd.GdbRemote.Text.{
  from_utf8_lossy, char_chunk, slice, is_char_boundary, split, split_once, bytes_eq, last_piece,
  strip_prefix,
}
use nnd.GdbRemote.Waiting.{send_packet}

abbrev stopped : ℕ → StopKind → Bytes → Result StopInfo
stopped t kind raw = ok (record { thread = some t; stop_kind = kind; raw = raw })

parse_stop_signal :
    parse_stop_reply (codes "S05")
    ≡ ok (record { thread = none; stop_kind = signal 5; raw = codes "S05" })
unfolding parse_stop_reply parse_stop_text from_utf8_lossy char_chunk slice is_char_boundary
    from_str_radix radix_digits to_digit split split_once bytes_eq last_piece strip_prefix
    parse_fields parse_field parse_thread parse_u64_hex thread_text watch_addr
parse_stop_signal = refl

parse_stop_breaks :
    (parse_stop_reply (codes "T05thread:1;") ≡ stopped 1 (signal 5) (codes "T05thread:1;"))
    × (parse_stop_reply (codes "T05thread:2;swbreak:;")
        ≡ stopped 2 sw_break (codes "T05thread:2;swbreak:;"))
    × (parse_stop_reply (codes "T05hwbreak:;thread:1;")
        ≡ stopped 1 hw_break (codes "T05hwbreak:;thread:1;"))
unfolding parse_stop_reply parse_stop_text from_utf8_lossy char_chunk slice is_char_boundary
    from_str_radix radix_digits to_digit split split_once bytes_eq last_piece strip_prefix
    parse_fields parse_field parse_thread parse_u64_hex thread_text watch_addr
parse_stop_breaks = (refl, refl, refl)

parse_stop_watches :
    (parse_stop_reply (codes "T05watch:1234abcd;thread:1;")
      ≡ stopped 1 (watch true false (some 0x1234abcd)) (codes "T05watch:1234abcd;thread:1;"))
    × (parse_stop_reply (codes "T05rwatch:10;thread:3;")
        ≡ stopped 3 (watch false true (some 0x10)) (codes "T05rwatch:10;thread:3;"))
    × (parse_stop_reply (codes "T05awatch:20;thread:3;")
        ≡ stopped 3 (watch true true (some 0x20)) (codes "T05awatch:20;thread:3;"))
unfolding parse_stop_reply parse_stop_text from_utf8_lossy char_chunk slice is_char_boundary
    from_str_radix radix_digits to_digit split split_once bytes_eq last_piece strip_prefix
    parse_fields parse_field parse_thread parse_u64_hex thread_text watch_addr
parse_stop_watches = (refl, refl, refl)

-- A stub in ack mode with packets of 64 bytes, and one with the size of the protocol's default.
abbrev small : Session
unfolding new
small = record {
  decoder = new;
  no_ack = false;
  packet_size = 64;
  qsupported = [];
  is_idle = refl;
  is_empty = refl;
}

abbrev twenty : Bytes
twenty = codes "twenty bytes of text"

hex_decode-hex_encode_example :
    hex_decode (hex_encode (0 ∷ 0x7f ∷ 0xff ∷ [])) ≡ ok (0 ∷ 0x7f ∷ 0xff ∷ [])
hex_decode-hex_encode_example = hex_decode-hex_encode (0 ∷ 0x7f ∷ 0xff ∷ []) (omega arith)

-- A frame in two pieces.
abbrev s05 : List Piece
s05 = (b'$', codes "S0") ∷ (b'5', codes "#b8") ∷ []

send_packet_answered_example :
    send_packet (codes "?") (quiet small (arriving s05 []) [])
    ≡ (ok (codes "S05"), quiet small [] ([] ++ exchanged small (codes "?")))
unfolding joined encode_packet hex_digit checksum
send_packet_answered_example =
    send_packet_answered small (codes "?") (codes "S05") s05 [] [] (ground arith) refl

-- The frames of sixteen bytes, in two pieces, and of the other four.
abbrev answers : List (List Piece)
answers =
    ((b'$', codes "7477656e74") ∷ (b'7', codes "9206279746573206f6620#00") ∷ [])
    ∷ ((b'$', codes "74657874#b0") ∷ [])
    ∷ []

read_mem_answered_example :
    read_mem 0x401000 20 (quiet small (all_reads answers) [])
    ≡ (ok twenty, quiet small [] (mem_written small 0x401000 (chunks 20 16 twenty)))
unfolding small joined encode_packet hex_digit checksum chunks Arrives hex_encode
read_mem_answered_example =
    read_mem_answered 0x401000 twenty small answers [] (omega arith) (omega arith)
      (refl, (refl, tt))

-- A script that breaks off in the middle of a packet.
abbrev cut_off : GdbRemote
unfolding connect new
cut_off = connect (record { reads = received (codes "$O") ∷ []; writes = []; written = [] })

send_packet-Ends_example : Ends (λ _ d. Answered cut_off d) (send_packet (codes "g") cut_off)
unfolding new connect
send_packet-Ends_example = send_packet-Ends (codes "g") cut_off new-IsSound

-- A stub that reports a signal.
abbrev signalled : GdbRemote
unfolding connect new
signalled = connect (record { reads = received (codes "+$S05#b8") ∷ []; writes = []; written = [] })

cont-step-Resumed_example :
    Resumed (action_text (codes "c") (some 1)) cut_off (cont (some 1) cut_off)
    × Resumed (action_text (codes "s") (some 1)) cut_off (step (some 1) cut_off)
cont-step-Resumed_example = cont-step-Resumed (some 1) cut_off

parse_stop_reply_ascii_example : Yields ⊥ (parse_stop_reply (codes "T05thread:zz;"))
parse_stop_reply_ascii_example = parse_stop_reply_ascii (codes "T05thread:zz;") (omega arith)

parse_stop_reply-panicked_example : parse_stop_reply (b'T' ∷ 0x80 ∷ codes "5") ≡ panicked
parse_stop_reply-panicked_example =
    parse_stop_reply-panicked b'T' 0x80 (codes "5") (inl refl) (omega arith, omega arith)
