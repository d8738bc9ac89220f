-- ===== src/GdbRemote/Commands.antt =====
-- The commands of src/gdb_remote.rs. Each is a request whose reply is taken apart.
use nnd.Base.{
  ℕ, zero, suc, ◌+◌, ◌-◌, ◌/◌, ◌%◌, ◌^◌, Bool, true, false, ◌==◌, ltb, ◌&&◌, ◌||◌, if◌then◌else◌,
  List, [], ◌∷◌, ◌++◌, Option, none, some, min, max, Bytes, codes, length,
}
use nnd.GdbProto
use nnd.GdbProto.{encode_packet, hex_digit}
use nnd.GdbRemote.Connection.{
  GdbRemote, M, then_in, ◌>>=◌, ◌>>◌, pure, fail, lift, write_all, mark_resume_in_flight,
  drain_ready, events_left,
}
use nnd.GdbRemote.Hex.{hex_encode, hex_decode, is_even, to_digit, parse_u64_hex, lower_hex}
use nnd.GdbRemote.Result.{
  Result, ok, err, panicked, stuck, protocol, unsupported, empty_qxfer_reply, unexpected_qxfer_lead,
  command_failed, bad_thread_info, error_reply, reply_not_utf8, empty_mem_reply, short_mem_read,
}
use nnd.GdbRemote.Result
use nnd.GdbRemote.StopReply.{parse_stop_reply, parse_packet_size}
use nnd.GdbRemote.Text.{from_utf8_lossy, is_utf8, split, bytes_eq, strip_prefix}
use nnd.GdbRemote.Waiting.{send_packet, starts_with}

-- `contains` of one text in another.
unfoldable pub contains_text : Bytes → Bytes → Bool
contains_text word [] = bytes_eq word []
contains_text word (b ∷ bs) =
    let later = contains_text word bs in
    elim (strip_prefix word (b ∷ bs)) [ none ↦ later | some _ ↦ true ]

-- The packets that a wait for a reply may still take: a loop that sends requests ends before.
unfoldable pub replies_left : GdbRemote → ℕ
replies_left c = length c.orphan_replies + events_left c

unfoldable pub set_features : Bytes → M (Unit {0})
set_features reply c =
    let text = from_utf8_lossy reply in
    (
      ok tt,
      record c {
        qsupported = text;
        packet_size = elim (parse_packet_size text) [ none ↦ c.packet_size | some n ↦ n ];
      },
    )

unfoldable pub enter_no_ack : Bytes → M (Unit {0})
enter_no_ack r c =
    if bytes_eq r (codes "OK")
    then (ok tt, record c { no_ack = true; decoder = GdbProto.set_no_ack c.decoder true })
    else (ok tt, c)

unfoldable pub try_no_ack : M (Unit {0})
unfolding enter_no_ack
try_no_ack c =
    if contains_text (codes "QStartNoAckMode") c.qsupported
    then (send_packet (codes "QStartNoAckMode") >>= enter_no_ack) c
    else (ok tt, c)

unfoldable pub handshake : M (Unit {0})
unfolding set_features try_no_ack
handshake = do
  drain_ready
  reply ← send_packet (codes "qSupported:swbreak+;hwbreak+;qXfer:features:read+;QStartNoAckMode+")
  set_features reply
  try_no_ack
  st ← send_packet (codes "?")
  info ← lift (parse_stop_reply st)
  pure tt

unfoldable pub all_hex : Bytes → Bool
all_hex [] = true
all_hex (b ∷ bs) = elim (to_digit b) [ none ↦ false | some d ↦ all_hex bs ]

-- The chunk of a reply: raw, or hexadecimal if it can be.
unfoldable pub decode_qxfer_chunk : Bytes → Bytes
decode_qxfer_chunk [] = []
decode_qxfer_chunk (b ∷ bs) =
    if b == b'<' || b == b' ' || b == b'\n' || b == b'?'
    then b ∷ bs
    else if is_even (b ∷ bs) && all_hex (b ∷ bs)
    then elim (hex_decode (b ∷ bs)) [ ok v ↦ v | _ ↦ b ∷ bs ]
    else b ∷ bs

-- One reply of `fetch_qxfer`; `again` goes on at the new offset with what is there so far.
unfoldable pub qxfer_reply : (ℕ → Bytes → M Bytes) → ℕ → Bytes → Bytes → M Bytes
unfolding decode_qxfer_chunk
qxfer_reply again offset out [] = fail (protocol empty_qxfer_reply)
qxfer_reply again offset out (lead ∷ body) =
    let chunk = decode_qxfer_chunk body in
    if lead == b'l'
    then pure (from_utf8_lossy (out ++ chunk))
    else if lead == b'm'
    then again (offset + length chunk) (out ++ chunk)
    else fail (protocol unexpected_qxfer_lead)

unfoldable pub qxfer_request : Bytes → ℕ → GdbRemote → Bytes
qxfer_request annex offset c =
    codes "qXfer:features:read:"
    ++ (annex ++ b':' ∷ (lower_hex offset ++ b',' ∷ lower_hex (min (c.packet_size - 64) 0xfffe)))

unfoldable pub qxfer_from : ℕ → Bytes → ℕ → Bytes → M Bytes
unfolding qxfer_reply qxfer_request
qxfer_from zero annex offset out c = (stuck, c)
qxfer_from (suc fuel) annex offset out c =
    then_in (send_packet (qxfer_request annex offset c) c)
      (qxfer_reply (qxfer_from fuel annex) offset out)

-- Each round takes a reply.
unfoldable pub fetch_qxfer : Bytes → M Bytes
fetch_qxfer annex c = qxfer_from (replies_left c + 1) annex 0 [] c

unfoldable pub fetch_target_xml : M Bytes
fetch_target_xml = fetch_qxfer (codes "target.xml")

-- Every reply but `OK` is a failure.
unfoldable pub expect_ok : Bytes → M (Unit {0})
expect_ok r = if bytes_eq r (codes "OK") then pure tt else fail (protocol command_failed)

unfoldable pub set_thread : ℕ → M (Unit {0})
set_thread tid = do r ← send_packet (codes "Hg" ++ lower_hex tid); expect_ok r

-- The ids of a list of pieces, in front of which `out` stands.
unfoldable pub thread_ids : List ℕ → List Bytes → Result (List ℕ)
thread_ids out [] = ok out
thread_ids out ([] ∷ parts) = thread_ids out parts
thread_ids out ((b ∷ bs) ∷ parts) =
    Result.◌>>=◌ (parse_u64_hex (b ∷ bs)) (λ id. thread_ids (out ++ id ∷ []) parts)

-- One reply of `threads`; `again` goes on with the next one and the ids so far.
unfoldable pub threads_reply : (Bytes → List ℕ → M (List ℕ)) → Bytes → List ℕ → M (List ℕ)
unfolding thread_ids
threads_reply again [] out = pure out
threads_reply again (lead ∷ body) out =
    if lead == b'm'
    then (do
      ids ← lift (thread_ids out (split b',' (from_utf8_lossy body)))
      reply ← send_packet (codes "qsThreadInfo")
      again reply ids)
    else if lead == b'l'
    then pure out
    else fail (protocol bad_thread_info)

unfoldable pub threads_from : ℕ → Bytes → List ℕ → M (List ℕ)
unfolding threads_reply
threads_from zero reply out c = (stuck, c)
threads_from (suc fuel) reply out c = threads_reply (threads_from fuel) reply out c

-- Each round but the last takes a reply.
unfoldable pub threads : M (List ℕ)
threads = do
  first ← send_packet (codes "qfThreadInfo")
  λ c. threads_from (replies_left c + 1) first [] c

-- The bytes of a reply in hexadecimal, which `E` marks as an error.
unfoldable pub hex_reply : Bytes → Result Bytes
hex_reply r =
    if starts_with b'E' r
    then err (protocol error_reply)
    else if is_utf8 r
    then hex_decode r
    else err (protocol reply_not_utf8)

unfoldable pub max_chunk : GdbRemote → ℕ
max_chunk c = max ((c.packet_size - 32) / 2) 16

-- One reply of `read_mem` to a request for `n` bytes; `again` goes on at the new offset.
unfoldable pub mem_reply : (ℕ → Bytes → M Bytes) → ℕ → ℕ → Bytes → Bytes → M Bytes
mem_reply again n off out bytes =
    if length bytes == 0
    then fail (protocol empty_mem_reply)
    else if ltb (length bytes) n
    then fail (protocol short_mem_read)
    else again (off + length bytes) (out ++ bytes)

unfoldable pub read_mem_from : ℕ → ℕ → ℕ → ℕ → ℕ → Bytes → M Bytes
unfolding mem_reply hex_reply
read_mem_from zero addr len chunk off out c = if ltb off len then (stuck, c) else (ok out, c)
read_mem_from (suc fuel) addr len chunk off out c =
    let n = min (len - off) chunk in
    let more =
      (do
        reply ← send_packet (b'm' ∷ (lower_hex ((addr + off) % 2 ^ 64) ++ b',' ∷ lower_hex n))
        bytes ← lift (hex_reply reply)
        mem_reply (read_mem_from fuel addr len chunk) n off out bytes)
        c in
    if ltb off len then more else (ok out, c)

-- A capacity above `isize::MAX` panics. Each round adds a byte at least.
unfoldable pub read_mem : ℕ → ℕ → M Bytes
read_mem addr len c =
    if ltb len (2 ^ 63) then read_mem_from len addr len (max_chunk c) 0 [] c else (panicked, c)

unfoldable pub write_mem : ℕ → Bytes → M (Unit {0})
write_mem addr bytes = do
  r ←
      send_packet
        (b'M' ∷ (lower_hex addr ++ b',' ∷ (lower_hex (length bytes) ++ b':' ∷ hex_encode bytes)))
  expect_ok r

unfoldable pub read_regs_raw : M Bytes
read_regs_raw = do r ← send_packet (codes "g"); lift (hex_reply r)

unfoldable pub all_x : Bytes → Bool
all_x [] = true
all_x (b ∷ bs) = b == b'x' && all_x bs

unfoldable pub reg_reply : Bytes → Result Bytes
reg_reply r =
    if starts_with b'E' r
    then err (protocol error_reply)
    else if all_x r
    then err unsupported
    else hex_reply r

unfoldable pub read_reg_raw : ℕ → M Bytes
read_reg_raw regnum = do r ← send_packet (b'p' ∷ lower_hex regnum); lift (reg_reply r)

unfoldable pub write_reg_raw : ℕ → Bytes → M (Unit {0})
write_reg_raw regnum val = do
  r ← send_packet (b'P' ∷ (lower_hex regnum ++ b'=' ∷ hex_encode val))
  expect_ok r

-- The request that resumes one thread or all of them: `c` to continue, `s` to step.
unfoldable pub resume_request : ℕ → Option ℕ → Bytes
resume_request action none = codes "vCont;" ++ action ∷ []
resume_request action (some t) = codes "vCont;" ++ action ∷ b':' ∷ lower_hex t

unfoldable pub resume : ℕ → Option ℕ → M (Unit {0})
unfolding resume_request
resume action tid = write_all (encode_packet (resume_request action tid)) >> mark_resume_in_flight

unfoldable pub cont : Option ℕ → M (Unit {0})
unfolding resume
cont tid = resume b'c' tid

unfoldable pub step : Option ℕ → M (Unit {0})
unfolding resume
step tid = resume b's' tid

-- The text of a `u8` in decimal.
unfoldable pub decimal : ℕ → Bytes
decimal n =
    if ltb n 10
    then (b'0' + n) ∷ []
    else if ltb n 100
    then (b'0' + n / 10) ∷ (b'0' + n % 10) ∷ []
    else (b'0' + n / 100) ∷ (b'0' + n / 10 % 10) ∷ (b'0' + n % 10) ∷ []

unfoldable pub breakpoint_reply : Bytes → M (Unit {0})
unfolding expect_ok
breakpoint_reply [] = fail unsupported
breakpoint_reply (b ∷ bs) = expect_ok (b ∷ bs)

unfoldable pub breakpoint_request : ℕ → ℕ → ℕ → ℕ → Bytes
breakpoint_request letter kind addr size =
    letter ∷ (decimal kind ++ b',' ∷ (lower_hex addr ++ b',' ∷ lower_hex size))

unfoldable pub insert_breakpoint : ℕ → ℕ → ℕ → M (Unit {0})
unfolding breakpoint_reply
insert_breakpoint kind addr size = do
  r ← send_packet (breakpoint_request b'Z' kind addr size)
  breakpoint_reply r

unfoldable pub remove_breakpoint : ℕ → ℕ → ℕ → M (Unit {0})
unfolding breakpoint_reply
remove_breakpoint kind addr size = do
  r ← send_packet (breakpoint_request b'z' kind addr size)
  breakpoint_reply r

unfoldable pub interrupt : M (Unit {0})
interrupt = write_all (0x03 ∷ [])

unfoldable pub kill : M (Unit {0})
kill = write_all (encode_packet (codes "k"))

unfoldable pub detach : M (Unit {0})
detach = do r ← send_packet (codes "D"); expect_ok r
