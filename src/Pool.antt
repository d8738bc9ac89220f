-- ===== src/Pool.antt =====
-- src/pool.rs: a pool of objects behind generational ids. A slot keeps the sequence number of the
-- object that it last held, so an id of a removed object does not reach the object that took its
-- slot. The head of the list `vacant` is the end of the vector, where `push` and `pop` work.
pub mod Slots
pub mod Invariant
pub mod Clear
pub mod View
pub mod Iter
pub mod Run
use nnd.Base.{
  ℕ, ◌+◌, ◌-◌, ◌%◌, ◌^◌, Bool, true, false, ◌==◌, leb, if◌then◌else◌, List, [], ◌∷◌, ◌++◌, Option,
  none, some, ◌>>=◌, length, get_elem?, set,
}

pub record PoolId : Type 0 where
  pub slot : ℕ
  pub seqno : ℕ

pub record Slot {ℓ} (T : Type ℓ) : Type ℓ where
  pub seqno : ℕ
  pub val : Option T

pub record Pool {ℓ} (T : Type ℓ) : Type ℓ where
  pub slots : List (Slot T)
  pub vacant : List ℕ
  pub next_seqno : ℕ

module _ {ℓ} {T : Type ℓ} where
  unfoldable pub new : Pool T
  new = record { slots = []; vacant = []; next_seqno = 1 }

  -- The object goes into a vacant slot, or into a new one at the end.
  unfoldable pub reuse_slot : Pool T → ℕ → List ℕ → T → Pool T
  reuse_slot p slot rest x = record {
    slots = set p.slots slot (record { seqno = p.next_seqno; val = some x });
    vacant = rest;
    next_seqno = (p.next_seqno + 1) % 2 ^ 64;
  }

  unfoldable pub push_slot : Pool T → T → Pool T
  push_slot p x = record p {
    slots = p.slots ++ record { seqno = p.next_seqno; val = some x } ∷ [];
    next_seqno = (p.next_seqno + 1) % 2 ^ 64;
  }

  -- The new id and the pool. `none` is the panic of an index out of range.
  unfoldable pub add : Pool T → T → Option (PoolId × Pool T)
  add p x = elim p.vacant [
    | slot ∷ rest ↦ elim (get_elem? p.slots slot) [
      | none ↦ none
      | some s ↦ some (record { slot = slot; seqno = p.next_seqno }, reuse_slot p slot rest x)
    ]
    | [] ↦ some (record { slot = length p.slots; seqno = p.next_seqno }, push_slot p x)
  ]

  -- `val.take()` on the slot that the id names, once its number is the right one.
  unfoldable pub take_slot : Pool T → ℕ → Slot T → Option T × Pool T
  take_slot p slot s = elim s.val [
    | none ↦ (none, p)
    | some x ↦ (
      some x,
      record p { slots = set p.slots slot (record s { val = none }); vacant = slot ∷ p.vacant },
    )
  ]

  unfoldable pub remove : Pool T → PoolId → Option T × Pool T
  remove p id = elim (get_elem? p.slots id.slot) [
    | none ↦ (none, p)
    | some s ↦ if s.seqno == id.seqno then take_slot p id.slot s else (none, p)
  ]

  -- The loop of `clear` from a slot on: the slots emptied, and the vacant list.
  unfoldable pub clear_from : ℕ → List (Slot T) → List ℕ → List (Slot T) × List ℕ
  clear_from i [] vacant = ([], vacant)
  clear_from i (s ∷ rest) vacant =
      let r = clear_from (i + 1) rest (elim s.val [ none ↦ vacant | some _ ↦ i ∷ vacant ]) in
      (record s { val = none } ∷ r.0, r.1)

  unfoldable pub clear : Pool T → Pool T
  clear p = let r = clear_from 0 p.slots p.vacant in record p { slots = r.0; vacant = r.1 }

  unfoldable pub try_get : Pool T → PoolId → Option T
  try_get p id = elim (get_elem? p.slots id.slot) [
    | none ↦ none
    | some s ↦ if s.seqno == id.seqno then s.val else none
  ]

  -- A write through the reference that `try_get_mut` returns; nothing happens if there is none.
  unfoldable pub try_get_mut : Pool T → PoolId → (T → T) → Pool T
  try_get_mut p id f = elim (get_elem? p.slots id.slot) [
    | none ↦ p
    | some s ↦
        if s.seqno == id.seqno
        then elim s.val [
          | none ↦ p
          | some x ↦ record p { slots = set p.slots id.slot (record s { val = some (f x) }) }
        ]
        else p
  ]

  -- `none` is the panic of the assertion.
  unfoldable pub is_empty : Pool T → Option Bool
  is_empty p =
      if leb (length p.vacant) (length p.slots)
      then some (length p.slots == length p.vacant)
      else none

  -- All that `iter` yields from a slot on, in order.
  unfoldable pub iter_from : ℕ → List (Slot T) → List (PoolId × T)
  iter_from i [] = []
  iter_from i (s ∷ rest) =
      let later = iter_from (i + 1) rest in
      elim s.val [ none ↦ later | some x ↦ (record { slot = i; seqno = s.seqno }, x) ∷ later ]

  unfoldable pub iter : Pool T → List (PoolId × T)
  unfolding iter_from
  iter p = iter_from 0 p.slots
