-- ===== src/RangeIndex/Fill.antt =====
-- The running maximum `max_end` that `RangeIndex::new` of src/range_index.rs fills in.
use nnd.Base.{
  ℕ, zero, suc, ◌+◌, ◌-◌, ◌≤◌, ◌≡◌, subst, inl, inr, ◌↔◌, true, ltb, leb, max, List, [], ◌∷◌, some,
  some-injective, arith, length, get_elem?, All, Bool-cases, ltb→lt, leb→le,
}
use nnd.RangeIndex.{RangeIndexEntry, Ord, key_le, fill_max_end, sort_by_key, new}
use nnd.RangeIndex.Sort.{Has, here, there, IsSorted, sort_by_key-IsSorted, length-sort_by_key}

module _ {ℓ} {T : Type ℓ} where
  -- Each `max_end` is the largest end so far, of `m` and the entries up to there.
  abbrev pub IsFilled : ℕ → List (RangeIndexEntry T) → Type 0
  IsFilled m [] = Unit
  IsFilled m (r ∷ rest) = (r.max_end ≡ max m r.end) × IsFilled r.max_end rest

  -- The limit on the distance is not met among the first 100001 entries.
  fill_max_end-IsFilled :
      (i max_end max_idx : ℕ) (xs : List (RangeIndexEntry T))
      → i + length xs ≤ 100001
      → IsFilled max_end (fill_max_end i max_end max_idx xs)
  unfolding fill_max_end
  fill_max_end-IsFilled i m k [] h = tt
  fill_max_end-IsFilled i m k (r ∷ rest) h = elim (Bool-cases (ltb 100000 (i - k))) [
    | inl e ↦ absurd (omega (arith, ltb→lt 100000 (i - k) e))
    | inr e ↦ elim (Bool-cases (leb m r.end)) [
      | inl q ↦
          rw (e, q)
            (
              omega (arith, leb→le m r.end q),
              fill_max_end-IsFilled (i + 1) r.end i rest (omega arith),
            )
      | inr q ↦ rw (e, q) (ground arith, fill_max_end-IsFilled (i + 1) m k rest (omega arith))
    ]
  ]

  IsFilled-le :
      (m : ℕ) (xs : List (RangeIndexEntry T)) (k : ℕ) (r : RangeIndexEntry T)
      → IsFilled m xs
      → get_elem? xs k ≡ some r
      → (m ≤ r.max_end) × (r.end ≤ r.max_end)
  IsFilled-le m [] k r h q = cc
  IsFilled-le m (x ∷ xs) zero r h q =
      let e : x ≡ r = some-injective _ _ q in rw (← e) (omega arith, omega arith)
  IsFilled-le m (x ∷ xs) (suc k) r h q =
      let t = IsFilled-le x.max_end xs k r h.1 q in (omega arith, t.1)

  -- The largest end up to an entry is at least the ends up to it.
  pub IsFilled-get :
      (m : ℕ) (xs : List (RangeIndexEntry T)) (j k : ℕ) (s r : RangeIndexEntry T)
      → IsFilled m xs
      → j ≤ k
      → get_elem? xs j ≡ some s
      → get_elem? xs k ≡ some r
      → s.end ≤ r.max_end
  IsFilled-get m [] j k s r h le p q = cc
  IsFilled-get m (x ∷ xs) zero zero s r h le p q =
      let e : x ≡ r = some-injective _ _ q in
      let f : x ≡ s = some-injective _ _ p in
      subst (λ t. s.end ≤ t.max_end) e (rw (← f) (omega arith))
  IsFilled-get m (x ∷ xs) zero (suc k) s r h le p q =
      let f : x ≡ s = some-injective _ _ p in
      rw (← f) (omega (arith, IsFilled-le x.max_end xs k r h.1 q))
  IsFilled-get m (x ∷ xs) (suc j) zero s r h le p q = absurd (omega arith)
  IsFilled-get m (x ∷ xs) (suc j) (suc k) s r h le p q =
      IsFilled-get x.max_end xs j k s r h.1 (omega arith) p q

  -- One round changes nothing of its entry but `max_end`.
  fill_max_end-cons :
      (i m k : ℕ) (r : RangeIndexEntry T) (rest : List (RangeIndexEntry T))
      → (a b : ℕ) × (fill_max_end i m k (r ∷ rest)
          ≡ record r { max_end = a } ∷ fill_max_end (i + 1) a b rest)
  unfolding fill_max_end
  fill_max_end-cons i m k r rest = elim (Bool-cases (ltb 100000 (i - k))) [
    | inl e ↦ (r.end, i, rw e)
    | inr e ↦ elim (Bool-cases (leb m r.end)) [
      | inl q ↦ (r.end, i, rw (e, q))
      | inr q ↦ (m, k, rw (e, q))
    ]
  ]

  -- A statement on ranges that does not look at `max_end`.
  abbrev pub Ignores : (RangeIndexEntry T → Type 0) → Type ℓ
  Ignores P = (r : RangeIndexEntry T) (m : ℕ) → P (record r { max_end = m }) ↔ P r

  pub All-fill_max_end :
      (P : RangeIndexEntry T → Type 0) (i m k : ℕ) (xs : List (RangeIndexEntry T))
      → Ignores P
      → All P (fill_max_end i m k xs) ↔ All P xs
  All-fill_max_end P i m k [] g = unfold fill_max_end in (λ a. a, λ a. a)
  All-fill_max_end P i m k (r ∷ rest) g =
      let (a, b, e) = fill_max_end-cons i m k r rest in
      let ih = All-fill_max_end P (i + 1) a b rest g in
      rw e (λ c. ((g r a).0 c.0, ih.0 c.1), λ c. ((g r a).1 c.0, ih.1 c.1))

  pub Has-fill_max_end :
      (t : RangeIndexEntry T) (i m k : ℕ) (xs : List (RangeIndexEntry T))
      → Has t (fill_max_end i m k xs)
      → Has t xs
  Has-fill_max_end t i m k [] h = unfold fill_max_end in h
  Has-fill_max_end t i m k (r ∷ rest) h =
      let (a, b, e) = fill_max_end-cons i m k r rest in
      step a (Has-fill_max_end t (i + 1) a b rest) (rw e at h)
    where
      step :
          (a : ℕ) {ys : List (RangeIndexEntry T)}
          → (Has t ys → Has t rest)
          → Has t (record r { max_end = a } ∷ ys)
          → Has t (r ∷ rest)
      step a f (here q) = here (record { start = q.start; end = q.end; value = q.value })
      step a f (there q) = there (f q)

  fill_max_end-IsSorted :
      (o : Ord T) (i m k : ℕ) (xs : List (RangeIndexEntry T))
      → IsSorted o xs
      → IsSorted o (fill_max_end i m k xs)
  fill_max_end-IsSorted o i m k [] h = unfold fill_max_end in h
  fill_max_end-IsSorted o i m k (r ∷ rest) h =
      let (a, b, e) = fill_max_end-cons i m k r rest in
      rw e (
        (All-fill_max_end (λ s. key_le o (record r { max_end = a }) s ≡ true) (i + 1) a b rest
              (λ s n. unfold key_le in (λ c. c, λ c. c))).1
            (unfold key_le in h.0),
        fill_max_end-IsSorted o (i + 1) a b rest h.1,
      )

  -- An index that `new` builds: in order, and each `max_end` is the largest end up to there.
  pub record IsIndex (o : Ord T) (xs : List (RangeIndexEntry T)) : Type 0 where
    pub sorted : IsSorted o xs
    pub filled : IsFilled 0 xs

  pub new-IsIndex :
      (o : Ord T) (xs : List (RangeIndexEntry T)) → length xs ≤ 100001 → IsIndex o (new o xs)
  unfolding new
  new-IsIndex o xs h = record {
    sorted = fill_max_end-IsSorted o 0 0 0 (sort_by_key o xs) (sort_by_key-IsSorted o xs);
    filled =
        fill_max_end-IsFilled 0 0 0 (sort_by_key o xs) (omega (arith, length-sort_by_key o xs));
  }
