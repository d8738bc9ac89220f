-- ===== src/GdbRemote/Resume.antt =====
-- The flag `resume_in_flight` of src/gdb_remote.rs: set by `cont` and `step`, tested by
-- `send_packet`, and cleared by the waits for a stop.
use nnd.Base.{ℕ, ◌≡◌, refl, true, List, [], ◌∷◌, ◌++◌, Option, none, some, Bytes, codes, subst}
use nnd.GdbProto.{encode_packet}
use nnd.GdbRemote.Commands.{cont, step, resume, resume_request}
use nnd.GdbRemote.Connection.{
  WriteEvent, wrote, write_failed, GdbRemote, then_in, write_with, write_all, mark_resume_in_flight,
}
use nnd.GdbRemote.Hex.{lower_hex}
use nnd.GdbRemote.Result.{Result, ok, err, panicked, stuck, protocol, target_is_running}
use nnd.GdbRemote.Waiting.{send_packet}

-- `send_packet` refuses whatever it is given, writes nothing, and leaves the client as it was.
abbrev pub Refuses : GdbRemote → Type 0
Refuses c = (payload : Bytes) → send_packet payload c ≡ (err (protocol target_is_running), c)

-- How a resume ends: the request is written and `send_packet` refuses, or the flag is as it was.
abbrev pub Resumed : Bytes → GdbRemote → Result (Unit {0}) × GdbRemote → Type 0
Resumed request c (ok _, d) =
    (d.stream.written ≡ c.stream.written ++ encode_packet request) × Refuses d
Resumed request c (err _, d) = d.resume_in_flight ≡ c.resume_in_flight
Resumed request c (panicked, d) = ⊥
Resumed request c (stuck, d) = ⊥

running-Refuses : (c : GdbRemote) → c.resume_in_flight ≡ true → Refuses c
unfolding send_packet
running-Refuses c h payload = rw h refl

resume-Resumed :
    (action : ℕ) (tid : Option ℕ) (c : GdbRemote)
    → Resumed (resume_request action tid) c (resume action tid c)
unfolding resume write_all write_with mark_resume_in_flight
resume-Resumed action tid c = go c.stream.writes
  where
    go :
        (ws : List WriteEvent)
        → Resumed (resume_request action tid) c (
            then_in
              (write_with ws (encode_packet (resume_request action tid)) c)
              (λ _. mark_resume_in_flight))
    go [] = (refl, running-Refuses _ refl)
    go (wrote ∷ ws) = (refl, running-Refuses _ refl)
    go (write_failed n e ∷ ws) = refl

-- The action of `vCont`, for one thread or for all.
abbrev pub action_text : Bytes → Option ℕ → Bytes
action_text letter none = codes "vCont;" ++ letter
action_text letter (some tid) = codes "vCont;" ++ (letter ++ codes ":" ++ lower_hex tid)

resume_request_lem :
    (action : ℕ) (tid : Option ℕ) → resume_request action tid ≡ action_text (action ∷ []) tid
unfolding resume_request
resume_request_lem action none = refl
resume_request_lem action (some tid) = refl

-- Where `cont` or `step` succeeds, its request for that thread or for all has been written as one
-- packet, and `send_packet` then refuses every payload without a write or any other change of the
-- client; where it fails the flag is as it was, and neither panics.
pub cont-step-Resumed :
    (tid : Option ℕ) (c : GdbRemote)
    → Resumed (action_text (codes "c") tid) c (cont tid c)
      × Resumed (action_text (codes "s") tid) c (step tid c)
unfolding cont step
cont-step-Resumed tid c = (
  subst (λ r. Resumed r c (resume b'c' tid c)) (resume_request_lem b'c' tid)
      (resume-Resumed b'c' tid c),
  subst (λ r. Resumed r c (resume b's' tid c)) (resume_request_lem b's' tid)
      (resume-Resumed b's' tid c),
)
