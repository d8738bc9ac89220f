-- ===== src/GdbRemote/ReadMem.antt =====
-- `read_mem` of src/gdb_remote.rs, on any script and with a stub that answers each request.
use nnd.Base.{
  All-take, All-drop, ℕ, zero, suc, ◌+◌, ◌-◌, ◌/◌, ◌%◌, ◌^◌, ◌≤◌, ◌<◌, ◌≡◌, refl, ap, sym, ◌∙◌,
  true, false, List, [], ◌∷◌, ◌++◌, arith, Bytes, length, append-nil, append_assoc, All, IsByte,
  take, drop, length-take, length-drop, take-append-drop, min, max, ltb, lt→ltb,
}
use nnd.GdbProto.{encode_packet}
use nnd.GdbRemote.Arrival.{Session, quiet, Piece, joined, arriving}
use nnd.GdbRemote.Ascii.{hex_reply-hex_encode, hex_encode-IsPayload}
use nnd.GdbRemote.Commands.{max_chunk, mem_reply, read_mem_from, read_mem}
use nnd.GdbRemote.Connection.{ReadEvent, GdbRemote, M}
use nnd.GdbRemote.Exchange.{exchanged, send_packet_answered}
use nnd.GdbRemote.Hex.{hex_encode, lower_hex}
use nnd.GdbRemote.Result.{Result, ok}

-- Bytes in chunks of a size, the last of which may be shorter.
unfoldable pub chunks : (fuel chunk : ℕ) → Bytes → List Bytes
chunks zero chunk bytes = []
chunks (suc fuel) chunk [] = []
chunks (suc fuel) chunk (b ∷ bs) = take chunk (b ∷ bs) ∷ chunks fuel chunk (drop chunk (b ∷ bs))

-- The stub sends each chunk in hexadecimal, in one frame, and each frame arrives in pieces.
unfoldable pub Arrives : List Bytes → List (List Piece) → Type 0
Arrives [] [] = Unit
Arrives [] (ps ∷ pss) = ⊥
Arrives (c ∷ cs) [] = ⊥
Arrives (c ∷ cs) (ps ∷ pss) = (joined ps ≡ encode_packet (hex_encode c)) × Arrives cs pss

unfoldable pub all_reads : List (List Piece) → List ReadEvent
all_reads [] = []
all_reads (ps ∷ pss) = arriving ps (all_reads pss)

-- A request for so many bytes at an address, which is that of a machine of 64 bits.
abbrev pub mem_request : ℕ → ℕ → Bytes
mem_request addr size = b'm' ∷ (lower_hex (addr % 2 ^ 64) ++ b',' ∷ lower_hex size)

-- What the client writes: for each chunk a request at the address behind the chunks before it.
unfoldable pub mem_written : Session → ℕ → List Bytes → Bytes
mem_written s addr [] = []
mem_written s addr (c ∷ cs) =
    exchanged s (mem_request addr (length c)) ++ mem_written s (addr + length c) cs

-- A reply of the size asked for is taken over.
mem_reply_full :
    (again : ℕ → Bytes → M Bytes) (n off : ℕ) (out bytes : Bytes)
    → 0 < n
    → length bytes ≡ n
    → mem_reply again n off out bytes ≡ again (off + length bytes) (out ++ bytes)
unfolding mem_reply
mem_reply_full again n off out bytes h e = ground (arith)

-- One round: the request goes out, and the bytes are appended.
step_reply :
    (fuel addr len chunk off : ℕ) (out bytes : Bytes) (s : Session) (ps : List Piece)
    (rs : List ReadEvent) (w : Bytes)
    → off < len
    → 0 < min (len - off) chunk
    → All IsByte bytes
    → length bytes ≡ min (len - off) chunk
    → joined ps ≡ encode_packet (hex_encode bytes)
    → read_mem_from (suc fuel) addr len chunk off out (quiet s (arriving ps rs) w)
      ≡ read_mem_from fuel addr len chunk
          (off + length bytes)
          (out ++ bytes)
          (quiet s rs (w ++ exchanged s (mem_request (addr + off) (min (len - off) chunk))))
unfolding read_mem_from
step_reply fuel addr len chunk off out bytes s ps rs w l p a e j =
    let request = mem_request (addr + off) (min (len - off) chunk) in
    rw
      (
        lt→ltb off len l,
        send_packet_answered s request (hex_encode bytes) ps rs w (hex_encode-IsPayload bytes a) j,
        hex_reply-hex_encode bytes a,
      )
      (ap (λ f. f (quiet s rs (w ++ exchanged s request)))
        (mem_reply_full (read_mem_from fuel addr len chunk) _ off out bytes p e))

-- The client has read and written everything.
abbrev ended : Session → Bytes → Bytes → Result Bytes × GdbRemote
ended s out w = (ok out, quiet s [] w)

same_end : (s : Session) {o p v w : Bytes} → o ≡ p → v ≡ w → ended s o v ≡ ended s p w
same_end s {p = p} {v = v} e f = ap (λ i. ended s i v) e ∙ ap (λ i. ended s p i) f

read_mem_from_answered :
    (fuel addr len chunk off : ℕ) (out rest : Bytes) (s : Session) (pss : List (List Piece))
    (w : Bytes)
    → len ≡ off + length rest
    → length rest ≤ fuel
    → 0 < chunk
    → All IsByte rest
    → Arrives (chunks fuel chunk rest) pss
    → read_mem_from fuel addr len chunk off out (quiet s (all_reads pss) w)
      ≡ (ok (out ++ rest), quiet s [] (w ++ mem_written s (addr + off) (chunks fuel chunk rest)))
unfolding read_mem_from chunks Arrives all_reads mem_written
read_mem_from_answered zero addr len chunk off out [] s [] w e f h a r =
    let t : ltb off len ≡ false = ground arith in rw (t, append-nil out, append-nil w) refl
read_mem_from_answered zero addr len chunk off out [] s (ps ∷ pss) w e f h a r = absurd r
read_mem_from_answered zero addr len chunk off out (b ∷ bs) s pss w e f h a r = absurd (omega arith)
read_mem_from_answered (suc fuel) addr len chunk off out [] s [] w e f h a r =
    let t : ltb off len ≡ false = ground arith in rw (t, append-nil out, append-nil w) refl
read_mem_from_answered (suc fuel) addr len chunk off out [] s (ps ∷ pss) w e f h a r = absurd r
read_mem_from_answered (suc fuel) addr len chunk off out (b ∷ bs) s [] w e f h a r = absurd r
read_mem_from_answered (suc fuel) addr len chunk off out (b ∷ bs) s (ps ∷ pss) w e f h a (j, r) =
    let here : length (take chunk (b ∷ bs)) ≡ min (len - off) chunk =
      omega (arith, length-take chunk (b ∷ bs)) in
    let left : length (drop chunk (b ∷ bs)) ≡ suc (length bs) - chunk =
      length-drop chunk (b ∷ bs) in
    let first = exchanged s (mem_request (addr + off) (min (len - off) chunk)) in
    let st =
      step_reply fuel addr len chunk off out (take chunk (b ∷ bs)) s ps (all_reads pss) w
        (omega arith) (omega arith) (All-take IsByte chunk (b ∷ bs) a) here j in
    let ih =
      read_mem_from_answered fuel addr len chunk (off + length (take chunk (b ∷ bs)))
        (out ++ take chunk (b ∷ bs)) (drop chunk (b ∷ bs)) s pss (w ++ first) (omega arith)
        (omega arith) h (All-drop IsByte chunk (b ∷ bs) a) r in
    let next : addr + (off + length (take chunk (b ∷ bs)))
        ≡ addr + off + length (take chunk (b ∷ bs)) =
      omega arith in
    let rest = chunks fuel chunk (drop chunk (b ∷ bs)) in
    st
    ∙ ih
    ∙ same_end s (append_assoc out _ _ ∙ ap (λ o. out ++ o) (take-append-drop chunk (b ∷ bs))) (
        append_assoc w first _
        ∙ ap
            (λ n.
              w
              ++ (exchanged s (mem_request (addr + off) n)
                  ++ mem_written s (addr + (off + length (take chunk (b ∷ bs)))) rest))
            (sym here)
        ∙ ap
            (λ i.
              w
              ++ (exchanged s (mem_request (addr + off) (length (take chunk (b ∷ bs))))
                  ++ mem_written s i rest))
            next)

-- The client waits for nothing, every write succeeds, and the stub sends bytes in hexadecimal, in
-- one frame for each chunk of the size that `read_mem` asks for; the frames arrive in pieces of any
-- lengths but zero. `read_mem` takes all the frames, gives the bytes in order, has written for each
-- chunk a request for its size at the address behind the chunks before it, each reply acknowledged
-- unless in no-ack mode, and the client waits for nothing again.
pub read_mem_answered :
    (addr : ℕ) (bytes : Bytes) (s : Session) (pss : List (List Piece)) (w : Bytes)
    → length bytes < 2 ^ 63
    → All IsByte bytes
    → Arrives (chunks (length bytes) (max ((s.packet_size - 32) / 2) 16) bytes) pss
    → read_mem addr (length bytes) (quiet s (all_reads pss) w) ≡ (
      ok bytes,
      quiet s [] (
          w
          ++ mem_written s addr (chunks (length bytes) (max ((s.packet_size - 32) / 2) 16) bytes)),
    )
unfolding read_mem max_chunk
read_mem_answered addr bytes s pss w l a r =
    let f : ltb (length bytes) (2 ^ 63) ≡ true = lt→ltb _ _ l in
    let start : addr + 0 ≡ addr = omega arith in
    rw f (
      read_mem_from_answered (length bytes) addr (length bytes) (max ((s.packet_size - 32) / 2) 16)
        0 [] bytes s pss w (omega arith) (omega arith) (omega arith) a r
      ∙ ap (λ i. ended s bytes (w ++ mem_written s i (chunks _ _ bytes))) start)
