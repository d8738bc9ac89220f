-- ===== src/GdbRemote/StopReply.antt =====
-- The replies of src/gdb_remote.rs that have a syntax of their own: the stop replies, and the
-- packet size among the features of the stub.
use nnd.Base.{
  ℕ, ◌^◌, Bool, true, false, ltb, ◌==◌, ◌&&◌, ◌||◌, not, if◌then◌else◌, List, [], ◌∷◌, Option, none,
  some, Bytes, length, codes,
}
use nnd.GdbRemote.Hex.{from_str_radix, parse_u64_hex}
use nnd.GdbRemote.Result.{
  Result, ok, err, panicked, protocol, empty_stop_reply, not_a_stop_reply, short_stop_reply,
  bad_signal, ◌>>=◌,
}
use nnd.GdbRemote.Text.{
  from_utf8_lossy, slice, split, split_once, last_piece, strip_prefix, bytes_eq,
}

-- `watch` has `write`, `read` and `addr`.
pub data StopKind : Type 0 where
  signal : ℕ → StopKind
  sw_break hw_break : StopKind
  watch : Bool → Bool → Option ℕ → StopKind
  other : Bytes → StopKind

pub record StopInfo : Type 0 where
  pub thread : Option ℕ
  pub stop_kind : StopKind
  pub raw : Bytes

-- What the loop over the fields carries.
pub record Fields : Type 0 where
  pub thread : Option ℕ
  pub kind : StopKind
  pub specific : Bool

-- The name of a field, and its value if it has a colon.
unfoldable pub field_parts : Bytes → Option (Bytes × Bytes) → Bytes × Option Bytes
field_parts field none = (field, none)
field_parts field (some (n, v)) = (n, some v)

-- The last component of a thread id such as `p1.2`, with no sign.
unfoldable pub thread_text : Bytes → Bytes
thread_text v =
    let t = last_piece (split b'.' v) in elim (strip_prefix (b'-' ∷ []) t) [ none ↦ t | some r ↦ r ]

unfoldable pub parse_thread : Fields → Option Bytes → Result Fields
unfolding thread_text
parse_thread f none = ok f
parse_thread f (some v) =
    let t = thread_text v in
    if not (bytes_eq t (codes "0")) && not (bytes_eq t (codes "-1"))
    then (parse_u64_hex t >>= λ id. ok (record f { thread = some id }))
    else ok f

-- `value.and_then(|v| parse_u64_hex(v).ok())`
unfoldable pub watch_addr : Option Bytes → Option ℕ
watch_addr none = none
watch_addr (some v) = from_str_radix (2 ^ 64) v

unfoldable pub parse_field : Fields → Bytes × Option Bytes → Result Fields
unfolding parse_thread watch_addr
parse_field f (name, value) =
    if bytes_eq name (codes "thread")
    then parse_thread f value
    else if bytes_eq name (codes "swbreak")
    then ok (record f { kind = sw_break; specific = true })
    else if bytes_eq name (codes "hwbreak")
    then ok (record f { kind = hw_break; specific = true })
    else if bytes_eq name (codes "watch")
        || bytes_eq name (codes "rwatch")
        || bytes_eq name (codes "awatch")
    then ok (record f {
      kind =
          watch (not (bytes_eq name (codes "rwatch"))) (not (bytes_eq name (codes "watch")))
            (watch_addr value);
      specific = true;
    })
    else ok f

-- The loop over the pieces that are not empty.
unfoldable pub parse_fields : Fields → List Bytes → Result Fields
unfolding parse_field field_parts
parse_fields f [] = ok f
parse_fields f ([] ∷ pieces) = parse_fields f pieces
parse_fields f ((b ∷ bs) ∷ pieces) = do
  g ← parse_field f (field_parts (b ∷ bs) (split_once b':' (b ∷ bs)))
  parse_fields g pieces

-- Behind the tests on the lead byte and the length. The slices of the text may panic.
unfoldable pub parse_signal : Bytes → Result StopInfo
unfolding parse_fields
parse_signal s = elim (slice s 1 3) [
  | none ↦ panicked
  | some digits ↦ elim (from_str_radix (2 ^ 8) digits) [
    | none ↦ err (protocol bad_signal)
    | some sig ↦ elim (slice s 3 (length s)) [
      | none ↦ panicked
      | some rest ↦
          parse_fields (record { thread = none; kind = signal sig; specific = false })
            (split b';' rest)
          >>= λ f. ok (record {
            thread = f.thread;
            stop_kind = if f.specific then f.kind else signal sig;
            raw = s;
          })
    ]
  ]
]

unfoldable pub parse_stop_text : Bytes → Result StopInfo
unfolding parse_signal
parse_stop_text [] = err (protocol empty_stop_reply)
parse_stop_text (b ∷ bs) =
    if not (b == b'T') && not (b == b'S')
    then err (protocol not_a_stop_reply)
    else if ltb (length (b ∷ bs)) 3
    then err (protocol short_stop_reply)
    else parse_signal (b ∷ bs)

unfoldable pub parse_stop_reply : Bytes → Result StopInfo
parse_stop_reply packet = parse_stop_text (from_utf8_lossy packet)

-- The first piece `PacketSize=` that has a number, a `usize`, behind it.
unfoldable pub packet_size_in : List Bytes → Option ℕ
packet_size_in [] = none
packet_size_in (part ∷ parts) =
    let later = packet_size_in parts in
    elim (strip_prefix (codes "PacketSize=") part) [
      | none ↦ later
      | some sz ↦ elim (from_str_radix (2 ^ 64) sz) [ none ↦ later | some n ↦ some n ]
    ]

unfoldable pub parse_packet_size : Bytes → Option ℕ
unfolding packet_size_in
parse_packet_size qsupported = packet_size_in (split b';' qsupported)
