-- ===== src/GdbRemote/Clean.antt =====
-- The client of src/gdb_remote.rs on a script whose bytes are ASCII: so are its packets.
use nnd.Base.{
  All-take, All-drop, ℕ, zero, suc, Bool, true, false, not, ◌==◌, ◌&&◌, List, [], ◌∷◌, Option, none,
  some, Bytes, take, drop, All, All-append, Option-cases, inl, inr, if◌then◌else◌,
}
use nnd.GdbProto.{
  State, idle, in_data, in_checksum, Decoder, Decoded, packet, step_in, step_idle, step_data,
  step_checksum, finish_packet, got_checksum, checksum, after, feed,
}
use nnd.GdbRemote.Ascii.{IsAscii}
use nnd.GdbRemote.Connection.{
  ReadEvent, received, read_failed, WriteEvent, wrote, write_failed, GdbRemote, M, then_in,
  write_with, write_all, clear_resume_if_stop, is_stop, unread, take_fed, read_with, read_once,
  next_round, next_from, next_decoded, ack_packet, reads_left,
}
use nnd.GdbRemote.Ready.{Ends}
use nnd.GdbRemote.Result.{Result, ok, err, panicked, stuck}

abbrev pub IsCleanRead : ReadEvent → Type 0
IsCleanRead (received bs) = All IsAscii bs
IsCleanRead (read_failed e) = Unit

abbrev pub IsCleanEvent : Decoded → Type 0
IsCleanEvent (packet p) = All IsAscii p
IsCleanEvent _ = Unit

-- The bytes that are to come are ASCII, and so are those that the client holds.
abbrev pub IsClean : GdbRemote → Type 0
IsClean c =
    All IsCleanRead c.stream.reads × All IsCleanEvent c.pending × All IsAscii c.decoder.payload

-- What holds where a call gives a value.
abbrev pub Keeps : {A : Type 0} → (A → GdbRemote → Type 0) → Result A × GdbRemote → Type 0
Keeps P (ok a, c) = P a c
Keeps P _ = Unit

pub Ends-Keeps :
    {A : Type 0} (P Q : A → GdbRemote → Type 0) (r : Result A × GdbRemote)
    → Ends P r
    → Keeps Q r
    → Ends (λ a c. P a c × Q a c) r
Ends-Keeps P Q (ok a, c) (i, p) q = (i, (p, q))
Ends-Keeps P Q (err e, c) i q = i
Ends-Keeps P Q (panicked, c) i q = i
Ends-Keeps P Q (stuck, c) i q = i

-- A hypothesis goes inside.
pub Keeps-given :
    {A : Type 0} (H : Type 0) (P : A → GdbRemote → Type 0) (r : Result A × GdbRemote)
    → (H → Keeps P r)
    → Keeps (λ a c. H → P a c) r
Keeps-given H P (ok a, c) k = k
Keeps-given H P (err e, c) k = tt
Keeps-given H P (panicked, c) k = tt
Keeps-given H P (stuck, c) k = tt

then_in-Keeps :
    {A B : Type 0} (P : A → GdbRemote → Type 0) (Q : B → GdbRemote → Type 0)
    (r : Result A × GdbRemote) (f : A → M B)
    → Keeps P r
    → ((a : A) (c : GdbRemote) → P a c → Keeps Q (f a c))
    → Keeps Q (then_in r f)
then_in-Keeps P Q (ok a, c) f p k = k a c p
then_in-Keeps P Q (err e, c) f p k = tt
then_in-Keeps P Q (panicked, c) f p k = tt
then_in-Keeps P Q (stuck, c) f p k = tt

if-either : {A : Type 0} (P : A → Type 0) (b : Bool) {x y : A} → P x → P y → P (if b then x else y)
if-either P true h k = h
if-either P false h k = k

-- What the decoder holds and reports.
abbrev CleanFed : Decoder × List Decoded → Type 0
CleanFed (d, out) = All IsAscii d.payload × All IsCleanEvent out

abbrev CleanStep : Option (Decoder × List Decoded) → Type 0
CleanStep none = Unit
CleanStep (some r) = CleanFed r

step_in-Clean :
    (s : State) (d : Decoder) (b : ℕ)
    → IsAscii b
    → All IsAscii d.payload
    → CleanStep (step_in s d b)
unfolding step_in step_idle step_data step_checksum finish_packet
step_in-Clean idle d b h a =
    if-either CleanFed (b == b'$') (tt, tt)
      (if-either CleanFed (b == b'+' && not d.no_ack) (a, (tt, tt))
        (if-either CleanFed (b == b'-' && not d.no_ack) (a, (tt, tt))
          (if-either CleanFed (b == 0x03) (a, (tt, tt)) (a, tt))))
step_in-Clean in_data d b h a =
    if-either (λ e. CleanStep (some (e, []))) (b == b'#') (a, tt)
      (if-either (λ e. CleanStep (some (e, []))) (b == b'$') (tt, tt)
        (All-append IsAscii d.payload (b ∷ []) a (h, tt), tt))
step_in-Clean (in_checksum c0 c1 zero) d b h a = (a, tt)
step_in-Clean (in_checksum c0 c1 (suc zero)) d b h a =
    if-either CleanFed (got_checksum c0 b == checksum d.payload) (tt, (a, tt)) (tt, tt)
step_in-Clean (in_checksum c0 c1 (suc (suc n))) d b h a = tt

after-Clean :
    (out : List Decoded) (r : Option (Decoder × List Decoded))
    → All IsCleanEvent out
    → CleanStep r
    → CleanStep (after out r)
after-Clean out none h k = tt
after-Clean out (some (d, more)) h k = (k.0, All-append IsCleanEvent out more h k.1)

feed-Clean :
    (d : Decoder) (bs : Bytes) → All IsAscii d.payload → All IsAscii bs → CleanStep (feed d bs)
unfolding feed
feed-Clean d [] a h = (a, tt)
feed-Clean d (b ∷ bs) a h = elim (Option-cases (step_in d.state d b)) [
  | inl e ↦ rw e tt
  | inr ((f, out), e) ↦
      let k : CleanFed (f, out) = rw e at (step_in-Clean d.state d b h.0 a) in
      rw e (after-Clean out (feed f bs) k.1 (feed-Clean f bs k.0 h.1))
]

unread-Clean :
    (bs : Bytes) (rs : List ReadEvent)
    → All IsAscii bs
    → All IsCleanRead rs
    → All IsCleanRead (unread bs rs)
unfolding unread
unread-Clean [] rs h k = k
unread-Clean (b ∷ bs) rs h k = (h, k)

take_fed-Keeps :
    (c : GdbRemote) (r : Option (Decoder × List Decoded))
    → IsClean c
    → CleanStep r
    → Keeps (λ _ d. IsClean d) (take_fed c r)
unfolding take_fed
take_fed-Keeps c none i h = tt
take_fed-Keeps c (some (d, out)) i h = (i.0, All-append IsCleanEvent c.pending out i.1 h.1, h.0)

read_once-Keeps : (c : GdbRemote) → IsClean c → Keeps (λ _ d. IsClean d) (read_once c)
unfolding read_once read_with
read_once-Keeps c i = go c.stream.reads i.0
  where
    go : (rs : List ReadEvent) → All IsCleanRead rs → Keeps (λ _ d. IsClean d) (read_with rs c)
    go [] h = tt
    go (read_failed x ∷ rs) h = tt
    go (received [] ∷ rs) h = tt
    go (received (b ∷ bs) ∷ rs) h =
        take_fed-Keeps _ (feed c.decoder (b ∷ take 4095 bs))
          (unread-Clean (drop 4095 bs) rs (All-drop IsAscii 4095 bs h.0.1) h.1, i.1, i.2)
          (feed-Clean c.decoder (b ∷ take 4095 bs) i.2 (h.0.0, All-take IsAscii 4095 bs h.0.1))

-- An event of ASCII, and the rest as well.
abbrev pub CleanEvent : Decoded → GdbRemote → Type 0
CleanEvent x d = IsCleanEvent x × IsClean d

next_round-Keeps :
    (again : M Decoded) (c : GdbRemote)
    → IsClean c
    → ((d : GdbRemote) → IsClean d → Keeps CleanEvent (again d))
    → Keeps CleanEvent (next_round again c.pending c)
unfolding next_round
next_round-Keeps again c i k = go c.pending i.1
  where
    go : (ds : List Decoded) → All IsCleanEvent ds → Keeps CleanEvent (next_round again ds c)
    go [] h =
        then_in-Keeps (λ _ d. IsClean d) CleanEvent (read_once c) _ (read_once-Keeps c i)
          (λ _ d. k d)
    go (x ∷ ds) h = (h.0, (i.0, h.1, i.2))

next_from-Keeps : (fuel : ℕ) (c : GdbRemote) → IsClean c → Keeps CleanEvent (next_from fuel c)
unfolding next_from
next_from-Keeps zero c i = next_round-Keeps (λ d. (stuck, d)) c i (λ d j. tt)
next_from-Keeps (suc fuel) c i =
    next_round-Keeps (next_from fuel) c i (λ d j. next_from-Keeps fuel d j)

pub next_decoded-Keeps : (c : GdbRemote) → IsClean c → Keeps CleanEvent (next_decoded c)
unfolding next_decoded
next_decoded-Keeps c i = next_from-Keeps (reads_left c.stream.reads) c i

write_with-Keeps :
    (ws : List WriteEvent) (bytes : Bytes) (c : GdbRemote)
    → IsClean c
    → Keeps (λ _ d. IsClean d) (write_with ws bytes c)
unfolding write_with
write_with-Keeps [] bytes c i = i
write_with-Keeps (wrote ∷ ws) bytes c i = i
write_with-Keeps (write_failed n e ∷ ws) bytes c i = tt

pub ack_packet-Keeps : (c : GdbRemote) → IsClean c → Keeps (λ _ d. IsClean d) (ack_packet c)
unfolding ack_packet write_all
ack_packet-Keeps c i =
    if-either (Keeps (λ _ d. IsClean d)) (not c.no_ack)
      (write_with-Keeps c.stream.writes (b'+' ∷ []) c i) i

pub clear_resume_if_stop-Keeps :
    (p : Bytes) (c : GdbRemote) → IsClean c → Keeps (λ _ d. IsClean d) (clear_resume_if_stop p c)
unfolding clear_resume_if_stop
clear_resume_if_stop-Keeps p c i =
    if-either (Keeps (λ _ d. IsClean d)) (not c.resume_in_flight) i
      (if-either (Keeps (λ _ d. IsClean d)) (is_stop p) i i)
