-- ===== src/RangeIndex/Find.antt =====
-- `find` of src/range_index.rs against the list of ranges that the index was built from.
use nnd.Base.{
  ℕ, zero, suc, ◌<◌, ◌≤◌, ◌≡◌, sym, ap, subst, inl, inr, Bool, true, false, ltb, leb, ◌&&◌, List,
  [], ◌∷◌, Option, none, some, some-injective, arith, length, get_elem?, get_elem?-lt,
  get_elem?_found, dec_lt, ◌∙◌, All, All-of-get, Bool-cases, ltb→lt, leb→le,
}
use mathlib.Core.Logic.{Lift}
use nnd.RangeIndex.{
  RangeIndexEntry, Ord, key_le, sort_by_key, new, partition_point, upper_bound, find_back, find,
}
use nnd.RangeIndex.Sort.{
  Has, here, there, IsSorted, IsSorted-get, key_le-start, key_le_refl, Has-sort_by_key,
  All-of-sort_by_key,
}
use nnd.RangeIndex.Fill.{
  IsFilled, IsFilled-get, IsIndex, new-IsIndex, All-fill_max_end, Has-fill_max_end,
}

not_leb : (a b : ℕ) → leb a b ≡ false → b < a
not_leb a b h = ground arith

not_ltb : (a b : ℕ) → ltb a b ≡ false → b ≤ a
not_ltb a b h = ground arith

module _ {ℓ} {T : Type ℓ} where
  -- The address is in the half-open range of the entry.
  abbrev pub contains : RangeIndexEntry T → ℕ → Bool
  contains r addr = leb r.start addr && ltb addr r.end

  partition_point-le-length :
      (test : RangeIndexEntry T → Bool) (xs : List (RangeIndexEntry T))
      → partition_point test xs ≤ length xs
  unfolding partition_point
  partition_point-le-length test [] = omega arith
  partition_point-le-length test (x ∷ xs) = ground (arith, partition_point-le-length test xs)

  partition_point-before :
      (test : RangeIndexEntry T → Bool) (xs : List (RangeIndexEntry T)) (i : ℕ)
      {s : RangeIndexEntry T}
      → i < partition_point test xs
      → get_elem? xs i ≡ some s
      → test s ≡ true
  unfolding partition_point
  partition_point-before test [] i h e = cc
  partition_point-before test (x ∷ xs) zero h e =
      let f = some-injective _ _ e in rw (← f) (ground arith)
  partition_point-before test (x ∷ xs) (suc i) h e = elim (Bool-cases (test x)) [
    | inl q ↦ partition_point-before test xs i (omega (arith, rw q at h)) e
    | inr q ↦ absurd (omega (arith, rw q at h))
  ]

  partition_point-at :
      (test : RangeIndexEntry T → Bool) (xs : List (RangeIndexEntry T)) {s : RangeIndexEntry T}
      → get_elem? xs (partition_point test xs) ≡ some s
      → test s ≡ false
  unfolding partition_point
  partition_point-at test [] e = cc
  partition_point-at test (x ∷ xs) {s} e = elim (Bool-cases (test x)) [
    | inl q ↦ partition_point-at test xs (rw q at e)
    | inr q ↦ let f : x ≡ s = some-injective _ _ (rw q at e) in rw (← f) q
  ]

  -- What the walk back from `idx` gives: the last entry before `idx` that ends behind the
  -- address, if any does.
  abbrev Back : List (RangeIndexEntry T) → ℕ → ℕ → Option (Option (RangeIndexEntry T)) → Type ℓ
  Back xs addr idx none = Lift ⊥
  Back xs addr idx (some none) =
      (j : ℕ) (s : RangeIndexEntry T) → j < idx → get_elem? xs j ≡ some s → s.end ≤ addr
  Back xs addr idx (some (some r)) =
      (k : ℕ) × (k < idx)
      × (get_elem? xs k ≡ some r)
      × (addr < r.end)
      × ((j : ℕ) (s : RangeIndexEntry T) → k < j → j < idx → get_elem? xs j ≡ some s → s.end ≤ addr)

  -- Two reads of one place give one entry.
  same_end :
      (xs : List (RangeIndexEntry T)) (addr idx j : ℕ) (x s : RangeIndexEntry T)
      → get_elem? xs idx ≡ some x
      → x.end ≤ addr
      → j ≡ idx
      → get_elem? xs j ≡ some s
      → s.end ≤ addr
  same_end xs addr idx j x s e h q p =
      let f : get_elem? xs idx ≡ some s = subst (λ k. get_elem? xs k ≡ some s) q p in
      let same : x ≡ s = some-injective _ _ (sym e ∙ f) in rw (← same) h

  Back-suc :
      (xs : List (RangeIndexEntry T)) (addr idx : ℕ) (x : RangeIndexEntry T)
      (r : Option (Option (RangeIndexEntry T)))
      → get_elem? xs idx ≡ some x
      → x.end ≤ addr
      → Back xs addr idx r
      → Back xs addr (suc idx) r
  Back-suc xs addr idx x none e h b = b
  Back-suc xs addr idx x (some none) e h b = λ j s lt q. elim (dec_lt j idx) [
    | yes p ↦ b j s p q
    | no p ↦ same_end xs addr idx j x s e h (omega arith) q
  ]
  Back-suc xs addr idx x (some (some r)) e h (k, lt, q, d, rest) = (
    k,
    omega arith,
    q,
    d,
    λ j s lo hi p. elim (dec_lt j idx) [
      | yes u ↦ rest j s lo u p
      | no u ↦ same_end xs addr idx j x s e h (omega arith) p
    ],
  )

  find_back-Back :
      (xs : List (RangeIndexEntry T)) (addr idx : ℕ)
      → IsFilled 0 xs
      → idx ≤ length xs
      → Back xs addr idx (find_back xs addr idx)
  unfolding find_back
  find_back-Back xs addr zero f h = λ j s lt q. absurd (omega arith)
  find_back-Back xs addr (suc idx) f h =
      let (x, e) = get_elem?_found xs idx (omega arith) in
      rw e (elim (Bool-cases (ltb addr x.max_end)) [
        | inl q ↦ rw q (elim (Bool-cases (ltb addr x.end)) [
          | inl p ↦
              rw p (idx, omega arith, e, ltb→lt addr x.end p, λ j s lo hi t. absurd (omega arith))
          | inr p ↦ rw p (
              Back-suc xs addr idx x (find_back xs addr idx) e (ground arith)
                (find_back-Back xs addr idx f (omega arith)))
        ])
        | inr q ↦ rw q (λ j s lt t.
            omega
              (arith, IsFilled-get 0 xs j idx s x f (omega arith) t e, not_ltb addr x.max_end q))
      ])

  same_start :
      (xs : List (RangeIndexEntry T)) (i j : ℕ) (x s : RangeIndexEntry T)
      → get_elem? xs i ≡ some x
      → j ≡ i
      → get_elem? xs j ≡ some s
      → x.start ≡ s.start
  same_start xs i j x s e q p =
      let f : get_elem? xs i ≡ some s = subst (λ k. get_elem? xs k ≡ some s) q p in
      ap (λ (r : RangeIndexEntry T). r.start) (some-injective _ _ (sym e ∙ f))

  Has-of-get :
      (xs : List (RangeIndexEntry T)) (i : ℕ) (r : RangeIndexEntry T)
      → get_elem? xs i ≡ some r
      → Has r xs
  Has-of-get [] i r e = cc
  Has-of-get (x ∷ xs) zero r e =
      let f : x ≡ r = some-injective _ _ e in
      here (record {
        start = ap (λ (t : RangeIndexEntry T). t.start) f;
        end = ap (λ (t : RangeIndexEntry T). t.end) f;
        value = ap (λ (t : RangeIndexEntry T). t.value) f;
      })
  Has-of-get (x ∷ xs) (suc i) r e = there (Has-of-get xs i r e)

  -- An entry that contains the address stands before `upper_bound`.
  contains-upper_bound :
      (o : Ord T) (xs : List (RangeIndexEntry T)) (addr j : ℕ) (s : RangeIndexEntry T)
      → IsSorted o xs
      → get_elem? xs j ≡ some s
      → s.start ≤ addr
      → j < upper_bound xs addr
  unfolding upper_bound
  contains-upper_bound o xs addr j s h e c = elim (dec_lt j (upper_bound xs addr)) [
    | yes p ↦ p
    | no p ↦
        let n = partition_point (λ (r : RangeIndexEntry T). leb r.start addr) xs in
        let (t, f) = get_elem?_found xs n (omega (arith, get_elem?-lt xs j e)) in
        let late : leb t.start addr ≡ false = partition_point-at (λ r. leb r.start addr) xs f in
        elim (dec_lt n j) [
          | yes u ↦ absurd (
              omega (
                arith,
                not_leb t.start addr late,
                key_le-start o t s (IsSorted-get o xs n j h u f e),
              ))
          | no u ↦
              absurd
                (omega (arith, not_leb t.start addr late, same_start xs n j t s f (omega arith) e))
        ]
  ]

  -- What a lookup gives on a list of ranges: a range of the list that contains the address and
  -- has the largest key of all that do, or nothing if none does; never a panic.
  abbrev pub Finds :
      Ord T → ℕ → List (RangeIndexEntry T) → Option (Option (RangeIndexEntry T)) → Type ℓ
  Finds o addr xs none = Lift ⊥
  Finds o addr xs (some none) = Lift (All (λ s. contains s addr ≡ false) xs)
  Finds o addr xs (some (some r)) =
      (contains r addr ≡ true)
      × Has r xs
      × All (λ s. contains s addr ≡ true → key_le o s r ≡ true) xs

  contains_parts :
      (s : RangeIndexEntry T) (addr : ℕ)
      → contains s addr ≡ true
      → (s.start ≤ addr) × (addr < s.end)
  contains_parts s addr c = ground arith

  parts_contain :
      (s : RangeIndexEntry T) (addr : ℕ) → s.start ≤ addr → addr < s.end → contains s addr ≡ true
  parts_contain s addr c d = ground arith

  before_upper_bound :
      (xs : List (RangeIndexEntry T)) (addr k : ℕ) (r : RangeIndexEntry T)
      → k < upper_bound xs addr
      → get_elem? xs k ≡ some r
      → r.start ≤ addr
  unfolding upper_bound
  before_upper_bound xs addr k r h e =
      leb→le r.start addr (partition_point-before (λ r. leb r.start addr) xs k h e)

  Back-Finds :
      (o : Ord T) (xs : List (RangeIndexEntry T)) (addr : ℕ)
      (r : Option (Option (RangeIndexEntry T)))
      → IsSorted o xs
      → Back xs addr (upper_bound xs addr) r
      → Finds o addr xs r
  Back-Finds o xs addr none h b = b
  Back-Finds o xs addr (some none) h b = record {
    lower =
        All-of-get (λ s. contains s addr ≡ false) xs
          (λ i s e. elim (Bool-cases (contains s addr)) [
            | inl c ↦
                let d = contains_parts s addr c in
                absurd (omega (arith, d, b i s (contains-upper_bound o xs addr i s h e d.0) e))
            | inr c ↦ c
          ]);
  }
  Back-Finds o xs addr (some (some r)) h (k, lt, e, d, rest) = (
    parts_contain r addr (before_upper_bound xs addr k r lt e) d,
    Has-of-get xs k r e,
    All-of-get (λ s. contains s addr ≡ true → key_le o s r ≡ true) xs
        (λ i s p c. elim (dec_lt i k) [
          | yes u ↦ IsSorted-get o xs i k h u p e
          | no u ↦ elim (dec_lt k i) [
            | yes w ↦
                let q = contains_parts s addr c in
                absurd (omega (arith, q, rest i s w (contains-upper_bound o xs addr i s h p q.0) p))
            | no w ↦
                let f : get_elem? xs k ≡ some s =
                  subst (λ m. get_elem? xs m ≡ some s) (let q : i ≡ k = omega arith in q) p in
                subst (λ t. key_le o s t ≡ true) (some-injective _ _ (sym f ∙ e)) (key_le_refl o s)
          ]
        ]),
  )

  find-IsIndex :
      (o : Ord T) (xs : List (RangeIndexEntry T)) (addr : ℕ)
      → IsIndex o xs
      → Finds o addr xs (find xs addr)
  unfolding find upper_bound
  find-IsIndex o xs addr i = Back-Finds o xs addr (find xs addr) i.sorted (
      find_back-Back xs addr (upper_bound xs addr) i.filled
        (partition_point-le-length (λ r. leb r.start addr) xs))

  Finds-new :
      (o : Ord T) (xs : List (RangeIndexEntry T)) (addr : ℕ)
      (r : Option (Option (RangeIndexEntry T)))
      → Finds o addr (new o xs) r
      → Finds o addr xs r
  unfolding new
  Finds-new o xs addr none f = f
  Finds-new o xs addr (some none) f = record {
    lower =
        All-of-sort_by_key o (λ s. contains s addr ≡ false) xs
          ((All-fill_max_end (λ s. contains s addr ≡ false) 0 0 0 (sort_by_key o xs)
              (λ s n. (λ c. c, λ c. c))).0
            f.lower);
  }
  Finds-new o xs addr (some (some r)) (c, h, a) = (
    c,
    Has-sort_by_key o r xs (Has-fill_max_end r 0 0 0 (sort_by_key o xs) h),
    All-of-sort_by_key o (λ s. contains s addr ≡ true → key_le o s r ≡ true) xs
        ((All-fill_max_end (λ s. contains s addr ≡ true → key_le o s r ≡ true) 0 0 0
            (sort_by_key o xs) (λ s n. unfold key_le in (λ q. q, λ q. q))).0
          a),
  )

  -- On an index built from at most 100001 ranges, `find` never panics: it gives a range of the
  -- list that contains the address and has the largest key `(start, value)` of all that do, or
  -- nothing exactly if no range of the list contains the address.
  pub find-new :
      (o : Ord T) (xs : List (RangeIndexEntry T)) (addr : ℕ)
      → length xs ≤ 100001
      → Finds o addr xs (find (new o xs) addr)
  find-new o xs addr h = Finds-new o xs addr _ (find-IsIndex o (new o xs) addr (new-IsIndex o xs h))
