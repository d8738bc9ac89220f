-- ===== src/RangeIndex/Sort.antt =====
-- The sort in `RangeIndex::new` of src/range_index.rs: in order, and the same ranges.
use nnd.Base.{
  length, ◌+◌, refl, ℕ, zero, suc, ◌<◌, ◌≤◌, ◌≡◌, subst, ◌⊎◌, inl, inr, true, false, List, [], ◌∷◌,
  some, some-injective, arith, get_elem?, All, All-get, Bool-cases,
}
use nnd.RangeIndex.{RangeIndexEntry, Ord, key_le, insert_by_key, sort_by_key}

-- The entries are of the same range.
pub record Same {ℓ} {T : Type ℓ} (a b : RangeIndexEntry T) : Type ℓ where
  pub start : a.start ≡ b.start
  pub end : a.end ≡ b.end
  pub value : a.value ≡ b.value

-- The list has an entry of the range.
pub data Has {ℓ} {T : Type ℓ} (r : RangeIndexEntry T) : List (RangeIndexEntry T) → Type ℓ where
  here : {s : RangeIndexEntry T} {rest : List (RangeIndexEntry T)} → Same s r → Has r (s ∷ rest)
  there : {s : RangeIndexEntry T} {rest : List (RangeIndexEntry T)} → Has r rest → Has r (s ∷ rest)

module _ {ℓ} {T : Type ℓ} (o : Ord T) where
  -- Every entry has a key that is at most those behind it.
  abbrev pub IsSorted : List (RangeIndexEntry T) → Type 0
  IsSorted [] = Unit
  IsSorted (r ∷ rest) = All (λ s. key_le o r s ≡ true) rest × IsSorted rest

  pub key_le_total : (a b : RangeIndexEntry T) → key_le o a b ≡ false → key_le o b a ≡ true
  unfolding key_le
  key_le_total a b h = ground (arith, o.total a.value b.value)

  pub key_le_refl : (a : RangeIndexEntry T) → key_le o a a ≡ true
  key_le_refl a = elim (Bool-cases (key_le o a a)) [ inl e ↦ e | inr e ↦ key_le_total a a e ]

  pub key_le_trans :
      (a b c : RangeIndexEntry T) → key_le o a b ≡ true → key_le o b c ≡ true → key_le o a c ≡ true
  unfolding key_le
  key_le_trans a b c h k = ground (arith, o.trans a.value b.value c.value)

  pub key_le-start : (a b : RangeIndexEntry T) → key_le o a b ≡ true → a.start ≤ b.start
  unfolding key_le
  key_le-start a b h = ground arith

  All-key_le :
      (a b : RangeIndexEntry T) (xs : List (RangeIndexEntry T))
      → key_le o a b ≡ true
      → All (λ s. key_le o b s ≡ true) xs
      → All (λ s. key_le o a s ≡ true) xs
  All-key_le a b [] h k = tt
  All-key_le a b (x ∷ xs) h k = (key_le_trans a b x h k.0, All-key_le a b xs h k.1)

  All-insert_by_key :
      (P : RangeIndexEntry T → Type 0) (r : RangeIndexEntry T) (xs : List (RangeIndexEntry T))
      → P r
      → All P xs
      → All P (insert_by_key o r xs)
  unfolding insert_by_key
  All-insert_by_key P r [] p a = (p, tt)
  All-insert_by_key P r (s ∷ rest) p a = elim (Bool-cases (key_le o r s)) [
    | inl e ↦ rw e (p, a)
    | inr e ↦ rw e (a.0, All-insert_by_key P r rest p a.1)
  ]

  insert_by_key-IsSorted :
      (r : RangeIndexEntry T) (xs : List (RangeIndexEntry T))
      → IsSorted xs
      → IsSorted (insert_by_key o r xs)
  unfolding insert_by_key
  insert_by_key-IsSorted r [] h = (tt, tt)
  insert_by_key-IsSorted r (s ∷ rest) h = elim (Bool-cases (key_le o r s)) [
    | inl e ↦ rw e ((e, All-key_le r s rest e h.0), h)
    | inr e ↦ rw e (
      All-insert_by_key (λ t. key_le o s t ≡ true) r rest (key_le_total r s e) h.0,
      insert_by_key-IsSorted r rest h.1,
    )
  ]

  pub sort_by_key-IsSorted : (xs : List (RangeIndexEntry T)) → IsSorted (sort_by_key o xs)
  unfolding sort_by_key
  sort_by_key-IsSorted [] = tt
  sort_by_key-IsSorted (r ∷ rest) =
      insert_by_key-IsSorted r (sort_by_key o rest) (sort_by_key-IsSorted rest)

  Has-insert_by_key :
      (t r : RangeIndexEntry T) (xs : List (RangeIndexEntry T))
      → Has t (insert_by_key o r xs)
      → Same r t ⊎ Has t xs
  unfolding insert_by_key
  Has-insert_by_key t r [] (here e) = inl e
  Has-insert_by_key t r [] (there h) = inr h
  Has-insert_by_key t r (s ∷ rest) h = elim (Bool-cases (key_le o r s)) [
    | inl e ↦ head (rw e at h)
    | inr e ↦ tail (Has-insert_by_key t r rest) (rw e at h)
  ]
    where
      head : Has t (r ∷ s ∷ rest) → Same r t ⊎ Has t (s ∷ rest)
      head (here q) = inl q
      head (there q) = inr q

      tail :
          (Has t (insert_by_key o r rest) → Same r t ⊎ Has t rest)
          → Has t (s ∷ insert_by_key o r rest)
          → Same r t ⊎ Has t (s ∷ rest)
      tail f (here q) = inr (here q)
      tail f (there q) = elim (f q) [ inl a ↦ inl a | inr b ↦ inr (there b) ]

  pub Has-sort_by_key :
      (t : RangeIndexEntry T) (xs : List (RangeIndexEntry T)) → Has t (sort_by_key o xs) → Has t xs
  unfolding sort_by_key
  Has-sort_by_key t [] h = h
  Has-sort_by_key t (r ∷ rest) h = elim (Has-insert_by_key t r (sort_by_key o rest) h) [
    | inl e ↦ here e
    | inr q ↦ there (Has-sort_by_key t rest q)
  ]

  All-of-insert_by_key :
      (P : RangeIndexEntry T → Type 0) (r : RangeIndexEntry T) (xs : List (RangeIndexEntry T))
      → All P (insert_by_key o r xs)
      → P r × All P xs
  unfolding insert_by_key
  All-of-insert_by_key P r [] a = a
  All-of-insert_by_key P r (s ∷ rest) a = elim (Bool-cases (key_le o r s)) [
    | inl e ↦ rw e at a
    | inr e ↦
        let b : P s × All P (insert_by_key o r rest) = rw e at a in
        let c = All-of-insert_by_key P r rest b.1 in (c.0, (b.0, c.1))
  ]

  pub All-of-sort_by_key :
      (P : RangeIndexEntry T → Type 0) (xs : List (RangeIndexEntry T))
      → All P (sort_by_key o xs)
      → All P xs
  unfolding sort_by_key
  All-of-sort_by_key P [] a = a
  All-of-sort_by_key P (r ∷ rest) a =
      let b = All-of-insert_by_key P r (sort_by_key o rest) a in
      (b.0, All-of-sort_by_key P rest b.1)

  length-insert_by_key :
      (r : RangeIndexEntry T) (xs : List (RangeIndexEntry T))
      → length (insert_by_key o r xs) ≡ length xs + 1
  unfolding insert_by_key
  length-insert_by_key r [] = omega arith
  length-insert_by_key r (s ∷ rest) = elim (Bool-cases (key_le o r s)) [
    | inl e ↦ rw e (omega arith)
    | inr e ↦ rw e (omega (arith, length-insert_by_key r rest))
  ]

  pub length-sort_by_key : (xs : List (RangeIndexEntry T)) → length (sort_by_key o xs) ≡ length xs
  unfolding sort_by_key
  length-sort_by_key [] = refl
  length-sort_by_key (r ∷ rest) =
      omega (arith, length-insert_by_key r (sort_by_key o rest), length-sort_by_key rest)

  -- The entry at an index has a key that is at most those at later ones.
  pub IsSorted-get :
      (xs : List (RangeIndexEntry T)) (j k : ℕ) {s r : RangeIndexEntry T}
      → IsSorted xs
      → j < k
      → get_elem? xs j ≡ some s
      → get_elem? xs k ≡ some r
      → key_le o s r ≡ true
  IsSorted-get [] j k h lt p q = cc
  IsSorted-get (x ∷ xs) zero zero h lt p q = absurd (omega arith)
  IsSorted-get (x ∷ xs) zero (suc k) {s} {r} h lt p q =
      subst (λ t. key_le o t r ≡ true) (some-injective _ _ p)
        (All-get (λ t. key_le o x t ≡ true) xs k h.0 q)
  IsSorted-get (x ∷ xs) (suc j) zero h lt p q = absurd (omega arith)
  IsSorted-get (x ∷ xs) (suc j) (suc k) h lt p q = IsSorted-get xs j k h.1 (omega arith) p q
