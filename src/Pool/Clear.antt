-- ===== src/Pool/Clear.antt =====
-- `clear` of src/pool.rs: every slot becomes free, and the invariant holds.
use nnd.Base.{
  get_elem?_found, get_elem?-lt, ℕ, zero, suc, ◌+◌, ◌<◌, ◌≤◌, ◌≡◌, ◌≢◌, refl, sym, ap, ◌∙◌, List,
  [], ◌∷◌, Option, none, some, arith, length, get_elem?, All, Option-cases, some-injective, inl,
  inr, ◌⊎◌,
}
use nnd.Pool.{PoolId, Slot, Pool, clear_from, clear, try_get}
use nnd.Pool.Invariant.{IsOld, Inv}
use nnd.Pool.Slots.{IsDistinct, free_count, IsFree}

module _ {ℓ} {T : Type ℓ} where
  -- What `clear` leaves in the slots.
  emptied : List (Slot T) → List (Slot T)
  emptied [] = []
  emptied (s ∷ rest) = record s { val = none } ∷ emptied rest

  clear_from-emptied :
      (i : ℕ) (xs : List (Slot T)) (vac : List ℕ) → (clear_from i xs vac).0 ≡ emptied xs
  unfolding clear_from emptied
  clear_from-emptied i [] vac = refl
  clear_from-emptied i (s ∷ rest) vac =
      ap (◌∷◌ (record s { val = none })) (clear_from-emptied (i + 1) rest _)

  length-emptied : (xs : List (Slot T)) → length (emptied xs) ≡ length xs
  unfolding emptied
  length-emptied [] = refl
  length-emptied (s ∷ rest) = ap suc (length-emptied rest)

  free_count-emptied : (xs : List (Slot T)) → free_count (emptied xs) ≡ length xs
  unfolding emptied free_count
  free_count-emptied [] = refl
  free_count-emptied (s ∷ rest) = omega (arith, free_count-emptied rest)

  emptied-IsOld : (n : ℕ) (xs : List (Slot T)) → All (IsOld n) xs → All (IsOld n) (emptied xs)
  unfolding emptied
  emptied-IsOld n [] a = tt
  emptied-IsOld n (s ∷ rest) a = (a.0, emptied-IsOld n rest a.1)

  get_elem?-emptied :
      (xs : List (Slot T)) (w : ℕ) (s : Slot T) → get_elem? (emptied xs) w ≡ some s → s.val ≡ none
  unfolding emptied
  get_elem?-emptied [] w s h = cc
  get_elem?-emptied (x ∷ xs) zero s h = ground arith
  get_elem?-emptied (x ∷ xs) (suc w) s h = get_elem?-emptied xs w s h

  All-IsFree :
      (xs : List (Slot T)) (ws : List ℕ)
      → All (λ w. w < length xs) ws
      → All (IsFree (emptied xs)) ws
  All-IsFree xs [] a = tt
  All-IsFree xs (w ∷ ws) a =
      let (s, f) = get_elem?_found (emptied xs) w (rw (length-emptied xs) a.0) in
      (record { there = s; found = f; empty = get_elem?-emptied xs w s f }, All-IsFree xs ws a.1)

  -- Before the slot `i` a number is done with; from it on, it is of a free slot.
  abbrev Ahead : ℕ → List (Slot T) → ℕ → Type ℓ
  Ahead i xs w = (w < i) ⊎ ((k : ℕ) × (w ≡ k + i) × IsFree xs k)

  abbrev next_vacant : ℕ → Option T → List ℕ → List ℕ
  next_vacant i none vac = vac
  next_vacant i (some x) vac = i ∷ vac

  Ahead-suc :
      (i : ℕ) (s : Slot T) (rest : List (Slot T)) (ws : List ℕ)
      → All (Ahead i (s ∷ rest)) ws
      → All (Ahead (i + 1) rest) ws
  Ahead-suc i s rest [] a = tt
  Ahead-suc i s rest (w ∷ ws) a = (move a.0, Ahead-suc i s rest ws a.1)
    where
      move : Ahead i (s ∷ rest) w → Ahead (i + 1) rest w
      move (inl h) = inl (omega arith)
      move (inr (zero, e, f)) = inl (omega arith)
      move (inr (suc k, e, f)) =
          inr (k, omega arith, record { there = f.there; found = f.found; empty = f.empty })

  ne_held :
      (i : ℕ) (s : Slot T) (x : T) (rest : List (Slot T)) (ws : List ℕ)
      → s.val ≡ some x
      → All (Ahead i (s ∷ rest)) ws
      → All (λ w. w ≢ i) ws
  ne_held i s x rest [] e a = tt
  ne_held i s x rest (w ∷ ws) e a = (apart a.0, ne_held i s x rest ws e a.1)
    where
      apart : Ahead i (s ∷ rest) w → w ≢ i
      apart (inl h) = omega arith
      apart (inr (zero, q, f)) = λ _.
          let same : s ≡ f.there = some-injective _ _ f.found in
          let bad : some x ≡ none = sym e ∙ ap (λ (t : Slot T). t.val) same ∙ f.empty in cc
      apart (inr (suc k, q, f)) = omega arith

  clear_from-IsDistinct :
      (i : ℕ) (xs : List (Slot T)) (vac : List ℕ)
      → IsDistinct vac
      → All (Ahead i xs) vac
      → IsDistinct (clear_from i xs vac).1
  unfolding clear_from
  clear_from-IsDistinct i [] vac d a = d
  clear_from-IsDistinct i (s ∷ rest) vac d a = elim (Option-cases s.val) [
    | inl e ↦ rw e (clear_from-IsDistinct (i + 1) rest vac d (Ahead-suc i s rest vac a))
    | inr (x, e) ↦ rw e (
        clear_from-IsDistinct (i + 1) rest (i ∷ vac) (ne_held i s x rest vac e a, d)
          (inl (omega arith), Ahead-suc i s rest vac a))
  ]

  length-clear_from :
      (i : ℕ) (xs : List (Slot T)) (vac : List ℕ)
      → length (clear_from i xs vac).1 + free_count xs ≡ length vac + length xs
  unfolding clear_from free_count
  length-clear_from i [] vac = omega arith
  length-clear_from i (s ∷ rest) vac = elim (Option-cases s.val) [
    | inl e ↦ rw e (omega (arith, length-clear_from (i + 1) rest vac))
    | inr (x, e) ↦ rw e (omega (arith, length-clear_from (i + 1) rest (i ∷ vac)))
  ]

  clear_from-lt :
      (n i : ℕ) (xs : List (Slot T)) (vac : List ℕ)
      → i + length xs ≤ n
      → All (λ w. w < n) vac
      → All (λ w. w < n) (clear_from i xs vac).1
  unfolding clear_from
  clear_from-lt n i [] vac h a = a
  clear_from-lt n i (s ∷ rest) vac h a = elim (Option-cases s.val) [
    | inl e ↦ rw e (clear_from-lt n (i + 1) rest vac (omega arith) a)
    | inr (x, e) ↦ rw e (clear_from-lt n (i + 1) rest (i ∷ vac) (omega arith) (omega arith, a))
  ]

  IsFree-lt : (xs : List (Slot T)) (ws : List ℕ) → All (IsFree xs) ws → All (λ w. w < length xs) ws
  IsFree-lt xs [] a = tt
  IsFree-lt xs (w ∷ ws) a = (get_elem?-lt xs w a.0.found, IsFree-lt xs ws a.1)

  IsFree-Ahead : (xs : List (Slot T)) (ws : List ℕ) → All (IsFree xs) ws → All (Ahead 0 xs) ws
  IsFree-Ahead xs [] a = tt
  IsFree-Ahead xs (w ∷ ws) a = (inr (w, omega arith, a.0), IsFree-Ahead xs ws a.1)

  pub clear-Inv : (p : Pool T) → Inv p → Inv (clear p)
  unfolding clear
  clear-Inv p v = record {
    old = rw (clear_from-emptied 0 p.slots p.vacant) (emptied-IsOld p.next_seqno p.slots v.old);
    free = rw (clear_from-emptied 0 p.slots p.vacant) (
        All-IsFree p.slots _ (
          clear_from-lt (length p.slots) 0 p.slots p.vacant (omega arith)
            (IsFree-lt p.slots p.vacant v.free)));
    distinct =
        clear_from-IsDistinct 0 p.slots p.vacant v.distinct (IsFree-Ahead p.slots p.vacant v.free);
    counted = rw (clear_from-emptied 0 p.slots p.vacant) (
        omega (arith, free_count-emptied p.slots, v.counted, length-clear_from 0 p.slots p.vacant));
  }

  -- No id reaches anything after `clear`.
  pub try_get-clear : (p : Pool T) (id : PoolId) → try_get (clear p) id ≡ none
  unfolding clear try_get
  try_get-clear p id =
      rw (clear_from-emptied 0 p.slots p.vacant)
        (elim (Option-cases (get_elem? (emptied p.slots) id.slot)) [
          | inl e ↦ rw (e, try_get)
          | inr (s, e) ↦ rw (e, try_get) (ground (arith, get_elem?-emptied p.slots id.slot s e))
        ])

  -- On a pool that satisfies the invariant, after `clear` it holds again and no id reaches anything; the counter stands, so that the
  -- numbers that were given out are not given out again.
  pub clear_lem :
      (p : Pool T)
      → Inv p
      → Inv (clear p)
        × ((id : PoolId) → try_get (clear p) id ≡ none)
        × ((clear p).next_seqno ≡ p.next_seqno)
  clear_lem p v = (clear-Inv p v, try_get-clear p, unfold clear in refl)
