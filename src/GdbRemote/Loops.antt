-- ===== src/GdbRemote/Loops.antt =====
-- The loops of src/gdb_remote.rs that send a request in each round, on any script: they end, with
-- a value or an error of the code.
use nnd.Base.{
  ℕ, zero, suc, ◌+◌, ◌≤◌, ◌<◌, ◌≡◌, refl, ◌==◌, List, [], ◌∷◌, ◌++◌, inl, inr, arith, Bytes, length,
  Bool-cases, codes,
}
use nnd.GdbRemote.Commands.{
  replies_left, fetch_qxfer, qxfer_from, qxfer_reply, qxfer_request, thread_ids, threads_reply,
  threads_from, threads,
}
use nnd.GdbRemote.Connection.{GdbRemote}
use nnd.GdbRemote.Ready.{IsReady, Ends, then_in-Ends, Answered, send_packet-Ends}
use nnd.GdbRemote.Result.{Result, ok, err, panicked, stuck}
use nnd.GdbRemote.Text.{split, from_utf8_lossy}
use nnd.GdbRemote.Waiting.{send_packet}
use nnd.GdbRemote.Yields.{Yields, ok-Yields, bind-Yields, parse_u64_hex-Yields}

lift-Ends :
    {A : Type 0} (r : Result A) (c : GdbRemote)
    → IsReady c
    → Yields ⊥ r
    → Ends (λ _ d. replies_left d ≡ replies_left c) (r, c)
unfolding Yields
lift-Ends (ok a) c i y = (i, refl)
lift-Ends (err e) c i y = i
lift-Ends panicked c i y = y
lift-Ends stuck c i y = y

-- It ends, with whatever value.
abbrev pub Done : {A : Type 0} → A → GdbRemote → Type 0
Done a d = Unit

qxfer_from-Ends :
    (fuel : ℕ) (annex : Bytes) (offset : ℕ) (out : Bytes) (c : GdbRemote)
    → replies_left c < fuel
    → IsReady c
    → Ends Done (qxfer_from fuel annex offset out c)
unfolding qxfer_from qxfer_reply
qxfer_from-Ends zero annex offset out c h i = absurd (omega arith)
qxfer_from-Ends (suc fuel) annex offset out c h i =
    then_in-Ends (λ _ d. Answered c d) Done (send_packet (qxfer_request annex offset c) c) _
      (send_packet-Ends (qxfer_request annex offset c) c i)
      (λ reply d j q.
        round reply d j (λ o bytes. qxfer_from-Ends fuel annex o bytes d (omega (arith, q)) j))
  where
    round :
        (reply : Bytes) (d : GdbRemote)
        → IsReady d
        → ((o : ℕ) (bytes : Bytes) → Ends Done (qxfer_from fuel annex o bytes d))
        → Ends Done (qxfer_reply (qxfer_from fuel annex) offset out reply d)
    round [] d j k = j
    round (lead ∷ body) d j k = elim (Bool-cases (lead == b'l')) [
      | inl e ↦ rw e (j, tt)
      | inr e ↦ elim (Bool-cases (lead == b'm')) [ inl f ↦ rw (e, f) (k _ _) | inr f ↦ rw (e, f) j ]
    ]

-- On any script, with a decoder in the middle of any stream, fetching a file of the
-- stub ends without a panic, with a text or an error of the code.
fetch_qxfer-Ends : (annex : Bytes) (c : GdbRemote) → IsReady c → Ends Done (fetch_qxfer annex c)
unfolding fetch_qxfer
fetch_qxfer-Ends annex c i = qxfer_from-Ends (replies_left c + 1) annex 0 [] c (omega arith) i

thread_ids-Yields : (out : List ℕ) (parts : List Bytes) → Yields ⊥ (thread_ids out parts)
unfolding thread_ids
thread_ids-Yields out [] = ok-Yields ⊥ out
thread_ids-Yields out ([] ∷ parts) = thread_ids-Yields out parts
thread_ids-Yields out ((b ∷ bs) ∷ parts) =
    bind-Yields ⊥ _ _ (parse_u64_hex-Yields ⊥ (b ∷ bs))
      (λ id. thread_ids-Yields (out ++ id ∷ []) parts)

threads_from-Ends :
    (fuel : ℕ) (reply : Bytes) (out : List ℕ) (c : GdbRemote)
    → replies_left c < fuel
    → IsReady c
    → Ends Done (threads_from fuel reply out c)
unfolding threads_from threads_reply
threads_from-Ends zero reply out c h i = absurd (omega arith)
threads_from-Ends (suc fuel) [] out c h i = (i, tt)
threads_from-Ends (suc fuel) (lead ∷ body) out c h i = elim (Bool-cases (lead == b'm')) [
  | inl e ↦
      let pieces = split b',' (from_utf8_lossy body) in
      rw e (
        then_in-Ends (λ _ d. replies_left d ≡ replies_left c) Done (thread_ids out pieces, c) _
          (lift-Ends (thread_ids out pieces) c i (thread_ids-Yields out pieces))
          (λ ids d j q.
            then_in-Ends (λ _ f. Answered d f) Done (send_packet (codes "qsThreadInfo") d) _
              (send_packet-Ends (codes "qsThreadInfo") d j)
              (λ r f k a. threads_from-Ends fuel r ids f (omega (arith, q, a)) k)))
  | inr e ↦ elim (Bool-cases (lead == b'l')) [ inl f ↦ rw (e, f) (i, tt) | inr f ↦ rw (e, f) i ]
]

-- On any script, with a decoder in the middle of any stream, listing the threads ends
-- without a panic, with a list or an error of the code.
threads-Ends : (c : GdbRemote) → IsReady c → Ends Done (threads c)
unfolding threads
threads-Ends c i =
    then_in-Ends (λ _ d. Answered c d) Done (send_packet (codes "qfThreadInfo") c) _
      (send_packet-Ends (codes "qfThreadInfo") c i)
      (λ first d j q. threads_from-Ends (replies_left d + 1) first [] d (omega arith) j)

-- As many bytes as were asked for, or more.
abbrev pub AtLeast : ℕ → Bytes → GdbRemote → Type 0
AtLeast len bytes d = len ≤ length bytes
