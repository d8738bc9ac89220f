-- ===== src/Pool/Run.antt =====
-- Any sequence of calls on the pool of src/pool.rs.
use nnd.Base.{
  ◌+◌, ◌<◌, ◌^◌, ◌≤◌, ◌≡◌, refl, ◌∙◌, List, [], ◌∷◌, Option, none, some, ◌>>=◌, arith, length,
}
use nnd.Pool.{PoolId, Pool, add, remove, clear, try_get, try_get_mut}
use nnd.Pool.Invariant.{Inv, remove-Inv, try_get_mut-Inv}
use nnd.Pool.Clear.{clear-Inv, try_get-clear}
use nnd.Pool.View.{add-Added, try_get-remove, try_get-try_get_mut, try_get-lt}

-- A call of a method that changes the pool, with its arguments.
pub data Call {ℓ} (T : Type ℓ) : Type ℓ where
  adds : T → Call T
  removes : PoolId → Call T
  writes : PoolId → (T → T) → Call T
  clears : Call T

module _ {ℓ} {T : Type ℓ} where
  unfoldable pub step : Pool T → Call T → Option (Pool T)
  step p (adds x) = add p x >>= λ r. some r.1
  step p (removes id) = some (remove p id).1
  step p (writes id f) = some (try_get_mut p id f)
  step p clears = some (clear p)

  unfoldable pub run : Pool T → List (Call T) → Option (Pool T)
  run p [] = some p
  run p (c ∷ cs) = step p c >>= λ q. run q cs

  -- The number was given out, and reaches nothing.
  abbrev IsDead : Pool T → PoolId → Type ℓ
  IsDead p id = (id.seqno < p.next_seqno) × (try_get p id ≡ none)

  abbrev IsRunning : Pool T → PoolId → Option (Pool T) → Type ℓ
  IsRunning p id r =
      (q : Pool T) × (r ≡ some q) × Inv q × IsDead q id × (q.next_seqno ≤ p.next_seqno + 1)

  step-IsDead :
      (p : Pool T) (c : Call T) (id : PoolId)
      → p.next_seqno + 1 < 2 ^ 64
      → Inv p
      → IsDead p id
      → IsRunning p id (step p c)
  unfolding step
  step-IsDead p (adds x) id h v d =
      let a = add-Added p x h v in
      (
        a.pool,
        rw a.result,
        a.valid,
        (rw a.next (omega arith), a.view id ∙ ground (arith, a.number)),
        rw a.next (omega arith),
      )
  step-IsDead p (removes j) id h v d =
      let t = try_get-remove p j id in
      (
        (remove p j).1,
        refl,
        remove-Inv p j v,
        (rw t.2 d.0, ground (arith, t.1)),
        rw t.2 (omega arith),
      )
  step-IsDead p (writes j f) id h v d =
      let t = try_get-try_get_mut p j id f in
      (
        try_get_mut p j f,
        refl,
        try_get_mut-Inv p j f v,
        (rw t.1 d.0, ground (arith, t.0)),
        rw t.1 (omega arith),
      )
  step-IsDead p clears id h v d = (
    clear p,
    refl,
    clear-Inv p v,
    (unfold clear in d.0, try_get-clear p id),
    unfold clear in omega arith,
  )

  run-IsDead :
      (p : Pool T) (cs : List (Call T)) (id : PoolId)
      → p.next_seqno + length cs < 2 ^ 64
      → Inv p
      → IsDead p id
      → (q : Pool T) × (run p cs ≡ some q) × Inv q × (try_get q id ≡ none)
  unfolding run
  run-IsDead p [] id h v d = (p, refl, v, d.1)
  run-IsDead p (c ∷ cs) id h v d =
      let (q, e, v', d', n) = step-IsDead p c id (omega arith) v d in
      let (r, e', w, g) = run-IsDead q cs id (omega arith) v' d' in (r, rw e e', w, g)

  -- On a pool that satisfies the invariant, once the object of an id is removed, the id reaches nothing after any later calls, although
  -- its slot may be used again. None of the calls panics, and the invariant holds after them, as
  -- long as they are too few to make the counter wrap.
  pub try_get-remove-run :
      (p : Pool T) (id : PoolId) {x : T} (cs : List (Call T))
      → p.next_seqno + length cs < 2 ^ 64
      → Inv p
      → try_get p id ≡ some x
      → (q : Pool T) × (run (remove p id).1 cs ≡ some q) × Inv q × (try_get q id ≡ none)
  try_get-remove-run p id cs h v e =
      let t = try_get-remove p id id in
      run-IsDead (remove p id).1 cs id (rw t.2 h) (remove-Inv p id v)
        (rw t.2 (try_get-lt p id v e), ground (arith, t.1))
