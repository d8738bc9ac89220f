-- ===== src/GdbRemote/Waiting.antt =====
-- The waits of src/gdb_remote.rs: for the reply to a packet, and for the target to stop.
use nnd.Base.{
  ℕ, zero, suc, ◌+◌, Bool, false, ◌==◌, ◌||◌, if◌then◌else◌, List, [], ◌∷◌, ◌++◌, Option, none,
  some, Bytes,
}
use nnd.GdbProto.{Decoded, packet, encode_packet}
use nnd.GdbRemote.Connection.{
  GdbRemote, M, then_in, ◌>>◌, pure, lift, write_all, clear_resume_if_stop, read_once, is_timeout,
  next_decoded, ack_packet, events_left,
}
use nnd.GdbRemote.Result.{protocol, Result, ok, err, panicked, stuck, target_is_running}
use nnd.GdbRemote.StopReply.{StopInfo, other, parse_stop_reply}
use nnd.GdbRemote.Text.{from_utf8_lossy}

-- One round of `wait_reply`.
unfoldable pub reply_round : M Bytes → Decoded → M Bytes
reply_round again (packet p) = do ack_packet; pure p
reply_round again _ = again

unfoldable pub reply_from : ℕ → M Bytes
unfolding reply_round
reply_from zero c = (stuck, c)
reply_from (suc fuel) c = then_in (next_decoded c) (reply_round (reply_from fuel))

unfoldable pub wait_reply_in : List Bytes → M Bytes
wait_reply_in [] c = reply_from (events_left c + 1) c
wait_reply_in (p ∷ ps) c = (ok p, record c { orphan_replies = ps })

-- Packets that were stashed come first. Each round takes an event.
unfoldable pub wait_reply : M Bytes
unfolding wait_reply_in
wait_reply c = wait_reply_in c.orphan_replies c

unfoldable pub send_packet : Bytes → M Bytes
send_packet payload c =
    if c.resume_in_flight
    then (err (protocol target_is_running), c)
    else (write_all (encode_packet payload) >> wait_reply) c

-- Events are dropped up to the first packet.
unfoldable pub first_packet : List Decoded → Option Bytes × List Decoded
first_packet [] = (none, [])
first_packet (packet p ∷ ds) = (some p, ds)
first_packet (_ ∷ ds) = first_packet ds

-- Behind the read of `poll_packet`.
unfoldable pub poll_read : Result (Unit {0}) × GdbRemote → Result (Option Bytes) × GdbRemote
unfolding first_packet
poll_read (ok _, c) = let r = first_packet c.pending in (ok r.0, record c { pending = r.1 })
poll_read (err e, c) = if is_timeout e then (ok none, c) else (err e, c)
poll_read (panicked, c) = (panicked, c)
poll_read (stuck, c) = (stuck, c)

unfoldable pub poll_pending : Option Bytes × List Decoded → M (Option Bytes)
unfolding poll_read
poll_pending (some p, ds) c = (ok (some p), record c { pending = ds })
poll_pending (none, ds) c = poll_read (read_once (record c { pending = ds }))

unfoldable pub poll_packet : M (Option Bytes)
unfolding poll_pending first_packet
poll_packet c = poll_pending (first_packet c.pending) c

-- `starts_with` of one ASCII character.
unfoldable pub starts_with : ℕ → Bytes → Bool
starts_with x [] = false
starts_with x (b ∷ bs) = b == x

-- The end of the process, on the text of the packet.
abbrev pub exit_info : Bytes → StopInfo
exit_info s = record { thread = none; stop_kind = other s; raw = s }

-- One round of `wait_stop`.
unfoldable pub stop_round : M StopInfo → Decoded → M StopInfo
unfolding starts_with
stop_round again (packet p) =
    ack_packet
    >> clear_resume_if_stop p
    >> (let s = from_utf8_lossy p in
        if starts_with b'T' s || starts_with b'S' s
        then lift (parse_stop_reply p)
        else if starts_with b'W' s || starts_with b'X' s
        then pure (exit_info s)
        else again)
stop_round again _ = again

unfoldable pub stop_from : ℕ → M StopInfo
unfolding stop_round
stop_from zero c = (stuck, c)
stop_from (suc fuel) c = then_in (next_decoded c) (stop_round (stop_from fuel))

-- Each round takes an event.
unfoldable pub wait_stop : M StopInfo
wait_stop c = stop_from (events_left c + 1) c

-- One round of `try_wait_stop`; `polls` is the number of polls that give nothing before the
-- deadline is over, and `again` takes the number that is left.
unfoldable pub try_round : (ℕ → M (Option StopInfo)) → ℕ → Option Bytes → M (Option StopInfo)
unfolding starts_with
try_round again zero none c = (ok none, c)
try_round again (suc polls) none c = again polls c
try_round again polls (some p) c =
    let s = from_utf8_lossy p in
    if starts_with b'T' s || starts_with b'S' s
    then then_in (lift (parse_stop_reply p) (record c { resume_in_flight = false }))
        (λ i. pure (some i))
    else if starts_with b'W' s || starts_with b'X' s
    then (ok (some (exit_info s)), record c { resume_in_flight = false })
    else again polls (record c { orphan_replies = c.orphan_replies ++ p ∷ [] })

unfoldable pub try_from : ℕ → ℕ → M (Option StopInfo)
unfolding try_round
try_from zero polls c = (stuck, c)
try_from (suc fuel) polls c = then_in (poll_packet c) (try_round (try_from fuel) polls)

-- Each round takes an event or one of the polls.
unfoldable pub try_wait_stop : ℕ → M (Option StopInfo)
try_wait_stop polls c = try_from (events_left c + polls + 1) polls c
