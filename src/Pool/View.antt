-- ===== src/Pool/View.antt =====
-- The pool of src/pool.rs seen from outside: which object each id reaches, after each operation.
use nnd.Base.{
  get_elem?-set, get_elem?-push, get_elem?-lt, All-get, ℕ, ◌+◌, ◌^◌, ◌<◌, ◌≤◌, ◌≡◌, refl, Bool,
  ◌==◌, ◌&&◌, if◌then◌else◌, List, [], ◌∷◌, Option, none, some, arith, length, get_elem?, inl, inr,
  Option-cases,
}
use mathlib.Core.Option
use nnd.Pool.{
  PoolId, Slot, Pool, reuse_slot, push_slot, add, take_slot, remove, try_get_mut, try_get,
}
use nnd.Pool.Invariant.{Inv, IsOld, reuse_slot-Inv, push_slot-Inv}
use nnd.Pool.Slots.{IsFree}

-- The ids are equal, field by field.
abbrev pub same_id : PoolId → PoolId → Bool
same_id i j = i.slot == j.slot && i.seqno == j.seqno

module _ {ℓ} {T : Type ℓ} where
  abbrev at : Option (Slot T) → PoolId → Option T
  at none id = none
  at (some s) id = if s.seqno == id.seqno then s.val else none

  try_get-at : (p : Pool T) (id : PoolId) → try_get p id ≡ at (get_elem? p.slots id.slot) id
  unfolding try_get
  try_get-at p id = ground arith

  try_get-reuse_slot :
      (p : Pool T) (slot : ℕ) (rest : List ℕ) (x : T) (j : PoolId)
      → IsFree p.slots slot
      → try_get (reuse_slot p slot rest x) j
        ≡ (if same_id j (record { slot = slot; seqno = p.next_seqno }) then some x else try_get p j)
  unfolding try_get reuse_slot
  try_get-reuse_slot p slot rest x j f = ground (
    arith,
    f.found,
    f.empty,
    get_elem?-set p.slots slot (record { seqno = p.next_seqno; val = some x }) j.slot f.found,
  )

  try_get-push_slot :
      (p : Pool T) (x : T) (j : PoolId)
      → try_get (push_slot p x) j ≡ (
          if same_id j (record { slot = length p.slots; seqno = p.next_seqno })
          then some x
          else try_get p j)
  unfolding try_get push_slot
  try_get-push_slot p x j = elim (Option-cases (get_elem? p.slots j.slot)) [
    | inl e ↦
        ground
          (arith, get_elem?-push p.slots (record { seqno = p.next_seqno; val = some x }) j.slot)
    | inr (s, e) ↦ ground (
      arith,
      get_elem?-lt p.slots j.slot e,
      get_elem?-push p.slots (record { seqno = p.next_seqno; val = some x }) j.slot,
    )
  ]

  -- An object that an id reaches has a number that was given out.
  pub try_get-lt :
      (p : Pool T) (id : PoolId) {x : T} → Inv p → try_get p id ≡ some x → id.seqno < p.next_seqno
  unfolding try_get
  try_get-lt p id v e = elim (Option-cases (get_elem? p.slots id.slot)) [
    | inl q ↦ ground arith
    | inr (s, q) ↦ ground (arith, All-get (IsOld p.next_seqno) p.slots id.slot v.old q)
  ]

  -- A number that was not given out reaches nothing.
  try_get_fresh : (p : Pool T) (id : PoolId) → Inv p → p.next_seqno ≤ id.seqno → try_get p id ≡ none
  try_get_fresh p id v h = elim (Option-cases (try_get p id)) [
    | inl e ↦ e
    | inr (x, e) ↦ absurd (omega (arith, try_get-lt p id v e))
  ]

  -- What an addition must give: a new id, which reached nothing before and reaches the object now,
  -- while every other id reaches what it reached.
  pub record Added (p : Pool T) (x : T) : Type ℓ where
    pub id : PoolId
    pub pool : Pool T
    pub result : add p x ≡ some (id, pool)
    pub unused : try_get p id ≡ none
    pub number : id.seqno ≡ p.next_seqno
    pub view : (j : PoolId) → try_get pool j ≡ (if same_id j id then some x else try_get p j)
    pub next : pool.next_seqno ≡ p.next_seqno + 1
    pub valid : Inv pool

  -- `add` on a pool that satisfies the invariant does not panic, short of the wrap of the counter:
  -- the id is new, the object is reached by it, all other ids are as before, the invariant holds.
  pub add-Added : (p : Pool T) (x : T) → p.next_seqno + 1 < 2 ^ 64 → Inv p → Added p x
  unfolding add
  add-Added p x h v = go p.vacant refl
    where
      go : (ws : List ℕ) → p.vacant ≡ ws → Added p x
      go [] e = record {
        id = record { slot = length p.slots; seqno = p.next_seqno };
        pool = push_slot p x;
        result = ground arith;
        unused =
            try_get_fresh p (record { slot = length p.slots; seqno = p.next_seqno }) v
              (omega arith);
        number = refl;
        view = try_get-push_slot p x;
        next = unfold push_slot in omega arith;
        valid = push_slot-Inv p x h v;
      }
      go (slot ∷ rest) e =
          let f = (rw e at v.free).0 in
          record {
            id = record { slot = slot; seqno = p.next_seqno };
            pool = reuse_slot p slot rest x;
            result = ground (arith, f.found);
            unused = try_get_fresh p (record { slot = slot; seqno = p.next_seqno }) v (omega arith);
            number = refl;
            view = λ j. try_get-reuse_slot p slot rest x j f;
            next = unfold reuse_slot in omega arith;
            valid = reuse_slot-Inv p slot rest x h e v;
          }

  -- `remove` hands out the object that the id reached; after it the id reaches nothing, every
  -- other id reaches what it reached, and the counter stands.
  pub try_get-remove :
      (p : Pool T) (id j : PoolId)
      → ((remove p id).0 ≡ try_get p id)
        × (try_get (remove p id).1 j ≡ (if same_id j id then none else try_get p j))
        × ((remove p id).1.next_seqno ≡ p.next_seqno)
  unfolding remove try_get take_slot
  try_get-remove p id j = elim (Option-cases (get_elem? p.slots id.slot)) [
    | inl e ↦ (ground arith, ground arith, ground arith)
    | inr (s, e) ↦ (
      ground arith,
      ground (arith, get_elem?-set p.slots id.slot (record s { val = none }) j.slot e),
      ground arith,
    )
  ]

  -- A write through a reference changes the object that the id reaches, and nothing else; the
  -- counter stands.
  pub try_get-try_get_mut :
      (p : Pool T) (id j : PoolId) (f : T → T)
      → (try_get (try_get_mut p id f) j
          ≡ (if same_id j id then Option.map f (try_get p j) else try_get p j))
        × ((try_get_mut p id f).next_seqno ≡ p.next_seqno)
  unfolding try_get try_get_mut
  try_get-try_get_mut p id j f = elim (Option-cases (get_elem? p.slots id.slot)) [
    | inl e ↦ (ground arith, ground arith)
    | inr (s, e) ↦ elim (Option-cases s.val) [
      | inl z ↦ (ground arith, ground arith)
      | inr (x, z) ↦ (
        ground (arith, get_elem?-set p.slots id.slot (record s { val = some (f x) }) j.slot e),
        ground arith,
      )
    ]
  ]
