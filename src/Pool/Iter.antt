-- ===== src/Pool/Iter.antt =====
-- `iter` and `is_empty` of src/pool.rs against the ids that reach something.
use nnd.Base.{
  ℕ, zero, suc, ◌+◌, ◌<◌, ◌≡◌, refl, ◌∙◌, ◌==◌, if◌then◌else◌, List, [], ◌∷◌, Option, none, some,
  arith, length, get_elem?, Option-cases, inl, inr,
}
use nnd.Pool.{PoolId, Slot, Pool, iter_from, iter, is_empty, try_get}
use nnd.Pool.Invariant.{Inv, is_empty-free_count}
use nnd.Pool.Slots.{free_count}
use nnd.Pool.View.{same_id}

module _ {ℓ} {T : Type ℓ} where
  -- The first object that a list of pairs has under an id.
  abbrev pub find_id : PoolId → List (PoolId × T) → Option T
  find_id j [] = none
  find_id j ((i, x) ∷ rest) = if same_id j i then some x else find_id j rest

  -- The object of a slot, if the number is right.
  abbrev pub at_slot : Option (Slot T) → ℕ → Option T
  at_slot none n = none
  at_slot (some s) n = if s.seqno == n then s.val else none

  find_id_past :
      (i : ℕ) (xs : List (Slot T)) (j : PoolId) → j.slot < i → find_id j (iter_from i xs) ≡ none
  unfolding iter_from
  find_id_past i [] j h = refl
  find_id_past i (s ∷ rest) j h = elim (Option-cases s.val) [
    | inl e ↦ ground (arith, find_id_past (i + 1) rest j (omega arith))
    | inr (x, e) ↦ ground (arith, find_id_past (i + 1) rest j (omega arith))
  ]

  find_id-iter_from :
      (i k : ℕ) (xs : List (Slot T)) (j : PoolId)
      → j.slot ≡ k + i
      → find_id j (iter_from i xs) ≡ at_slot (get_elem? xs k) j.seqno
  unfolding iter_from
  find_id-iter_from i k [] j h = refl
  find_id-iter_from i zero (s ∷ rest) j h = elim (Option-cases s.val) [
    | inl e ↦ ground (arith, find_id_past (i + 1) rest j (omega arith))
    | inr (x, e) ↦ ground (arith, find_id_past (i + 1) rest j (omega arith))
  ]
  find_id-iter_from i (suc k) (s ∷ rest) j h = elim (Option-cases s.val) [
    | inl e ↦ ground (arith, find_id-iter_from (i + 1) k rest j (omega arith))
    | inr (x, e) ↦ ground (arith, find_id-iter_from (i + 1) k rest j (omega arith))
  ]

  length-iter_from :
      (i : ℕ) (xs : List (Slot T)) → length (iter_from i xs) + free_count xs ≡ length xs
  unfolding iter_from free_count
  length-iter_from i [] = omega arith
  length-iter_from i (s ∷ rest) = elim (Option-cases s.val) [
    | inl e ↦ ground (arith, length-iter_from (i + 1) rest)
    | inr (x, e) ↦ ground (arith, length-iter_from (i + 1) rest)
  ]

  -- On a pool that satisfies the invariant, the iterator yields it as a map: under every id stands what the id reaches, and the
  -- pool is reported empty, with no panic, exactly if the iterator yields nothing.
  pub iter-try_get :
      (p : Pool T)
      → Inv p
      → ((j : PoolId) → find_id j (iter p) ≡ try_get p j)
        × (is_empty p ≡ some (length (iter p) == 0))
  unfolding iter try_get
  iter-try_get p v = (
    λ j. find_id-iter_from 0 j.slot p.slots j (omega arith) ∙ ground arith,
    is_empty-free_count p v ∙ ground (arith, length-iter_from 0 p.slots),
  )
