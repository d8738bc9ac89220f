-- ===== src/Pool/Invariant.antt =====
-- The invariant of the pool of src/pool.rs, and that every operation keeps it and does not panic.
use nnd.Base.{
  get_elem?-set, get_elem?-push, get_elem?-lt, All-get, All-set, ℕ, ◌+◌, ◌%◌, ◌^◌, ◌<◌, ◌≤◌, ◌≡◌,
  ◌≢◌, refl, sym, ap, subst, ◌∙◌, ◌==◌, List, [], ◌∷◌, ◌++◌, none, some, arith, length, get_elem?,
  set, All, All-append, ne→==, ==_refl, some-injective, inl, inr, Option-cases, Bool-cases,
}
use nnd.Pool.{
  PoolId, Slot, Pool, new, reuse_slot, push_slot, take_slot, remove, try_get_mut, is_empty,
}
use nnd.Pool.Slots.{
  IsDistinct, free_count, IsFree, free_count-set, free_count-push, free_count-le-length,
}

module _ {ℓ} {T : Type ℓ} where
  abbrev pub IsOld : ℕ → Slot T → Type 0
  IsOld n s = s.seqno < n

  -- Numbers are fresh, the vacant list has every free slot once and no other.
  pub record Inv (p : Pool T) : Type ℓ where
    pub old : All (IsOld p.next_seqno) p.slots
    pub free : All (IsFree p.slots) p.vacant
    pub distinct : IsDistinct p.vacant
    pub counted : free_count p.slots ≡ length p.vacant

  pub new-Inv : Inv new
  unfolding new free_count
  new-Inv = record { old = tt; free = tt; distinct = tt; counted = refl }

  IsOld-mono : (n m : ℕ) (xs : List (Slot T)) → n ≤ m → All (IsOld n) xs → All (IsOld m) xs
  IsOld-mono n m [] h a = tt
  IsOld-mono n m (x ∷ xs) h a = (omega arith, IsOld-mono n m xs h a.1)

  IsFree-set :
      (xs : List (Slot T)) (i : ℕ) (v x : Slot T) (ws : List ℕ)
      → get_elem? xs i ≡ some x
      → All (λ w. w ≢ i) ws
      → All (IsFree xs) ws
      → All (IsFree (set xs i v)) ws
  IsFree-set xs i v x [] h ne a = tt
  IsFree-set xs i v x (w ∷ ws) h ne a = (
    record {
      there = a.0.there;
      found = get_elem?-set xs i v w h ∙ rw (ne→== w i ne.0) a.0.found;
      empty = a.0.empty;
    },
    IsFree-set xs i v x ws h ne.1 a.1,
  )

  IsFree-push :
      (xs : List (Slot T)) (v : Slot T) (ws : List ℕ)
      → All (IsFree xs) ws
      → All (IsFree (xs ++ v ∷ [])) ws
  IsFree-push xs v [] a = tt
  IsFree-push xs v (w ∷ ws) a = (
    record {
      there = a.0.there;
      found =
          get_elem?-push xs v w
          ∙ rw (ne→== w (length xs) (omega (arith, get_elem?-lt xs w a.0.found))) a.0.found;
      empty = a.0.empty;
    },
    IsFree-push xs v ws a.1,
  )

  -- A slot that holds something is not on the vacant list.
  held_ne_free :
      (xs : List (Slot T)) (i : ℕ) (s : Slot T) (x : T) (ws : List ℕ)
      → get_elem? xs i ≡ some s
      → s.val ≡ some x
      → All (IsFree xs) ws
      → All (λ w. w ≢ i) ws
  held_ne_free xs i s x [] h e a = tt
  held_ne_free xs i s x (w ∷ ws) h e a = (
    λ q.
        let f : get_elem? xs i ≡ some a.0.there =
          subst (λ k. get_elem? xs k ≡ some a.0.there) q a.0.found in
        let same : s ≡ a.0.there = some-injective _ _ (sym h ∙ f) in
        let bad : some x ≡ none = sym e ∙ ap (λ (t : Slot T). t.val) same ∙ a.0.empty in cc,
    held_ne_free xs i s x ws h e a.1,
  )

  IsOld-next :
      (p : Pool T)
      → p.next_seqno + 1 < 2 ^ 64
      → All (IsOld p.next_seqno) p.slots
      → All (IsOld ((p.next_seqno + 1) % 2 ^ 64)) p.slots
  IsOld-next p h a = IsOld-mono p.next_seqno _ p.slots (omega arith) a

  pub reuse_slot-Inv :
      (p : Pool T) (slot : ℕ) (rest : List ℕ) (x : T)
      → p.next_seqno + 1 < 2 ^ 64
      → p.vacant ≡ slot ∷ rest
      → Inv p
      → Inv (reuse_slot p slot rest x)
  unfolding reuse_slot
  reuse_slot-Inv p slot rest x h e v =
      let f = rw e at v.free in
      let d = rw e at v.distinct in
      let c = rw e at v.counted in
      record {
        old =
            All-set (IsOld ((p.next_seqno + 1) % 2 ^ 64)) p.slots slot _ (IsOld-next p h v.old)
              (omega arith);
        free = IsFree-set p.slots slot _ f.0.there rest f.0.found d.0 f.1;
        distinct = d.1;
        counted = omega (
          arith,
          c,
          rw f.0.empty at (
              free_count-set p.slots slot (record { seqno = p.next_seqno; val = some x }) f.0.there
                f.0.found),
        );
      }

  pub push_slot-Inv : (p : Pool T) (x : T) → p.next_seqno + 1 < 2 ^ 64 → Inv p → Inv (push_slot p x)
  unfolding push_slot
  push_slot-Inv p x h v = record {
    old =
        All-append (IsOld ((p.next_seqno + 1) % 2 ^ 64)) p.slots _ (IsOld-next p h v.old)
          (omega arith, tt);
    free = IsFree-push p.slots _ p.vacant v.free;
    distinct = v.distinct;
    counted =
        omega (
          arith,
          v.counted,
          free_count-push p.slots (record { seqno = p.next_seqno; val = some x }),
        );
  }

  take_slot-Inv :
      (p : Pool T) (slot : ℕ) (s : Slot T)
      → get_elem? p.slots slot ≡ some s
      → Inv p
      → Inv (take_slot p slot s).1
  unfolding take_slot
  take_slot-Inv p slot s h v = elim (Option-cases s.val) [
    | inl e ↦ rw e v
    | inr (x, e) ↦
        let ne = held_ne_free p.slots slot s x p.vacant h e v.free in
        rw e (record {
          old =
              All-set (IsOld p.next_seqno) p.slots slot _ v.old
                (All-get (IsOld p.next_seqno) p.slots slot v.old h);
          free = (
            record {
              there = record s { val = none };
              found = get_elem?-set p.slots slot _ slot h ∙ rw (==_refl slot);
              empty = refl;
            },
            IsFree-set p.slots slot _ s p.vacant h ne v.free,
          );
          distinct = (ne, v.distinct);
          counted = omega (
            arith,
            v.counted,
            rw e at (free_count-set p.slots slot (record s { val = none }) s h),
          );
        })
  ]

  pub remove-Inv : (p : Pool T) (id : PoolId) → Inv p → Inv (remove p id).1
  unfolding remove
  remove-Inv p id v = elim (Option-cases (get_elem? p.slots id.slot)) [
    | inl e ↦ rw (e, remove) v
    | inr (s, e) ↦
        rw (e, remove)
          (elim (Bool-cases (s.seqno == id.seqno)) [
            | inl q ↦ rw q (take_slot-Inv p id.slot s e v)
            | inr q ↦ rw q v
          ])
  ]

  write-Inv :
      (p : Pool T) (slot : ℕ) (s : Slot T) (x y : T)
      → get_elem? p.slots slot ≡ some s
      → s.val ≡ some x
      → Inv p
      → Inv (record p { slots = set p.slots slot (record s { val = some y }) })
  write-Inv p slot s x y h e v = record {
    old =
        All-set (IsOld p.next_seqno) p.slots slot _ v.old
          (All-get (IsOld p.next_seqno) p.slots slot v.old h);
    free =
        IsFree-set p.slots slot _ s p.vacant h (held_ne_free p.slots slot s x p.vacant h e v.free)
          v.free;
    distinct = v.distinct;
    counted =
        omega
          (arith, v.counted, rw e at (free_count-set p.slots slot (record s { val = some y }) s h));
  }

  pub try_get_mut-Inv : (p : Pool T) (id : PoolId) (f : T → T) → Inv p → Inv (try_get_mut p id f)
  unfolding try_get_mut
  try_get_mut-Inv p id f v = elim (Option-cases (get_elem? p.slots id.slot)) [
    | inl e ↦ rw (e, try_get_mut) v
    | inr (s, e) ↦
        rw (e, try_get_mut)
          (elim (Bool-cases (s.seqno == id.seqno)) [
            | inl q ↦ rw q (elim (Option-cases s.val) [
              | inl z ↦ rw z v
              | inr (x, z) ↦ rw z (write-Inv p id.slot s x (f x) e z v)
            ])
            | inr q ↦ rw q v
          ])
  ]

  -- `is_empty` does not panic, and is true exactly of a pool whose slots are all free.
  pub is_empty-free_count :
      (p : Pool T) → Inv p → is_empty p ≡ some (length p.slots == free_count p.slots)
  unfolding is_empty
  is_empty-free_count p v = rw v.counted (ground (arith, v.counted, free_count-le-length p.slots))
