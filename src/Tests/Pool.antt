-- ===== src/Tests/Pool.antt =====
-- Runs of the pool of src/pool.rs, and its theorems at a pool with a slot that was used twice.
use nnd.Base.{ℕ, ◌+◌, ◌≡◌, refl, [], ◌∷◌, some, none, arith, ◌==◌, length, if◌then◌else◌}
use nnd.Pool.{
  PoolId, Pool, new, reuse_slot, push_slot, take_slot, add, remove, clear, try_get, try_get_mut,
  is_empty, iter,
}
use nnd.Pool.Clear.{clear_lem}
use nnd.Pool.Invariant.{Inv}
use nnd.Pool.Iter.{iter-try_get, find_id}
use nnd.Pool.Run.{adds, removes, step, run, try_get-remove-run}
use nnd.Pool.Slots.{free_count}
use nnd.Pool.View.{same_id, Added, add-Added, try_get-remove, try_get-try_get_mut}
use mathlib.Core.Option

-- 20 took the slot of an object that had the number 1; 30 was removed.
abbrev used : Pool ℕ
used = record {
  slots = record { seqno = 3; val = some 20 } ∷ record { seqno = 2; val = none } ∷ [];
  vacant = 1 ∷ [];
  next_seqno = 4;
}

abbrev first : PoolId
first = record { slot = 0; seqno = 3 }

abbrev gone : PoolId
gone = record { slot = 0; seqno = 1 }

used-Inv : Inv used
unfolding free_count
used-Inv = record {
  old = omega arith;
  free = (record { there = record { seqno = 2; val = none }; found = refl; empty = refl }, tt);
  distinct = (tt, tt);
  counted = refl;
}

reached_by_run :
    run new (
      adds 10
      ∷ adds 30
      ∷ removes (record { slot = 0; seqno = 1 })
      ∷ adds 20
      ∷ removes (record { slot = 1; seqno = 2 })
      ∷ [])
    ≡ some used
unfolding run step new add reuse_slot push_slot remove take_slot
reached_by_run = refl

stale_id : try_get used gone ≡ none
unfolding try_get
stale_id = refl

add-Added_example : Added used 40
add-Added_example = add-Added used 40 (omega arith) used-Inv

try_get-remove_example :
    ((remove used first).0 ≡ try_get used first)
    × (try_get (remove used first).1 gone
        ≡ (if same_id gone first then none else try_get used gone))
    × ((remove used first).1.next_seqno ≡ 4)
try_get-remove_example = try_get-remove used first gone

try_get-try_get_mut_example :
    (try_get (try_get_mut used first (λ x. x + 1)) first ≡ (
      if same_id first first
      then Option.map (λ x. x + 1) (try_get used first)
      else try_get used first))
    × ((try_get_mut used first (λ x. x + 1)).next_seqno ≡ 4)
try_get-try_get_mut_example = try_get-try_get_mut used first first (λ x. x + 1)

try_get-remove-run_example :
    (q : Pool ℕ) × (run (remove used first).1 (adds 50 ∷ adds 60 ∷ []) ≡ some q)
    × Inv q
    × (try_get q first ≡ none)
unfolding try_get
try_get-remove-run_example =
    try_get-remove-run used first {x = 20} (adds 50 ∷ adds 60 ∷ []) (omega arith) used-Inv refl

iter-try_get_example :
    ((j : PoolId) → find_id j (iter used) ≡ try_get used j)
    × (is_empty used ≡ some (length (iter used) == 0))
iter-try_get_example = iter-try_get used used-Inv

clear_lem_example :
    Inv (clear used)
    × ((id : PoolId) → try_get (clear used) id ≡ none)
    × ((clear used).next_seqno ≡ 4)
clear_lem_example = clear_lem used used-Inv
