-- ===== src/GdbRemote/WaitStop.antt =====
-- `wait_stop` of src/gdb_remote.rs on any script: its end, its panics and the flag
-- `resume_in_flight`.
use nnd.Base.{◌≡◌, true, false, Bytes}
use nnd.GdbRemote.Connection.{GdbRemote, is_stop, events_left}
use nnd.GdbRemote.Ready.{IsReady}
use nnd.GdbRemote.Result.{Result, ok, err, panicked, stuck}
use nnd.GdbRemote.StopReply.{StopInfo}
use nnd.GdbRemote.Yields.{Yields}

-- How a wait for a stop ends: a panic is none where `H` holds.
abbrev pub Stops : Type 0 → Result StopInfo × GdbRemote → Type 0
Stops H (ok i, d) = IsReady d × (d.resume_in_flight ≡ false)
Stops H (err e, d) = IsReady d
Stops H (panicked, d) = H → ⊥
Stops H (stuck, d) = ⊥

-- No more events than before, and the flag cleared if the packet is a stop.
abbrev Cleared : Bytes → GdbRemote → GdbRemote → Type 0
Cleared p c d = (events_left d ≡ events_left c) × (is_stop p ≡ true → d.resume_in_flight ≡ false)
