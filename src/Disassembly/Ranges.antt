-- ===== src/Disassembly/Ranges.antt =====
-- What `clean_up_ranges` of src/disassembly.rs does: the loop that overwrites the vector in place
-- is a merge of the sorted list, and that merge keeps the addresses.
use nnd.Base.{
  ℕ, ◌-◌, ◌<◌, ◌≤◌, ◌≡◌, refl, ap, ◌∙◌, inl, inr, Bool, true, false, ltb, leb, ◌&&◌, ◌||◌, List, [],
  ◌∷◌, some, length, All, arith, Bool-cases,
}
use nnd.RangeIndex.{Range, are_apart}
use nnd.Disassembly.{insert_by_start, sort_by_start, clean_up_ranges}
use nnd.Disassembly.Merge.{merged, finished, finished-merged}

-- One of the ranges has the address.
unfoldable pub covers : List Range → ℕ → Bool
covers [] a = false
covers (r ∷ rest) a = (leb r.start a && ltb a r.end) || covers rest a

-- Every start is at most those behind it.
abbrev Ascends : List Range → Type 0
Ascends [] = Unit
Ascends (r ∷ rest) = All (λ s. r.start ≤ s.start) rest × Ascends rest

All-start :
    (a b : Range) (xs : List Range)
    → a.start ≤ b.start
    → All (λ s. b.start ≤ s.start) xs
    → All (λ s. a.start ≤ s.start) xs
All-start a b [] h k = tt
All-start a b (x ∷ xs) h k = (omega (arith, h, k.0), All-start a b xs h k.1)

All-insert_by_start :
    (P : Range → Type 0) (r : Range) (xs : List Range)
    → P r
    → All P xs
    → All P (insert_by_start r xs)
unfolding insert_by_start
All-insert_by_start P r [] p a = (p, tt)
All-insert_by_start P r (s ∷ rest) p a = elim (Bool-cases (leb r.start s.start)) [
  | inl e ↦ rw e (p, a)
  | inr e ↦ rw e (a.0, All-insert_by_start P r rest p a.1)
]

insert_by_start-Ascends :
    (r : Range) (xs : List Range) → Ascends xs → Ascends (insert_by_start r xs)
unfolding insert_by_start
insert_by_start-Ascends r [] h = (tt, tt)
insert_by_start-Ascends r (s ∷ rest) h = elim (Bool-cases (leb r.start s.start)) [
  | inl e ↦ let l : r.start ≤ s.start = ground (arith, e) in rw e ((l, All-start r s rest l h.0), h)
  | inr e ↦
      let l : s.start ≤ r.start = ground (arith, e) in
      rw e (
        All-insert_by_start (λ t. s.start ≤ t.start) r rest l h.0,
        insert_by_start-Ascends r rest h.1,
      )
]

sort_by_start-Ascends : (xs : List Range) → Ascends (sort_by_start xs)
unfolding sort_by_start
sort_by_start-Ascends [] = tt
sort_by_start-Ascends (r ∷ rest) =
    insert_by_start-Ascends r (sort_by_start rest) (sort_by_start-Ascends rest)

covers-insert_by_start :
    (r : Range) (xs : List Range) (a : ℕ) → covers (insert_by_start r xs) a ≡ covers (r ∷ xs) a
unfolding insert_by_start covers
covers-insert_by_start r [] a = refl
covers-insert_by_start r (s ∷ rest) a = elim (Bool-cases (leb r.start s.start)) [
  | inl e ↦ rw e refl
  | inr e ↦ rw e (ground (arith, covers-insert_by_start r rest a))
]

covers-sort_by_start : (xs : List Range) (a : ℕ) → covers (sort_by_start xs) a ≡ covers xs a
unfolding sort_by_start covers
covers-sort_by_start [] a = refl
covers-sort_by_start (r ∷ rest) a =
    ground (arith, covers-insert_by_start r (sort_by_start rest) a, covers-sort_by_start rest a)

covers-merged :
    (last : Range) (rest : List Range) (a : ℕ)
    → Ascends (last ∷ rest)
    → covers (merged last rest) a ≡ covers (last ∷ rest) a
unfolding merged covers
covers-merged last [] a h = refl
covers-merged last (r ∷ rest) a h =
    let l = h.0.0 in
    let v = record last { end = r.end } in
    elim (Bool-cases (ltb last.end r.start)) [
      | inl e ↦
          rw e (ap (λ z. (leb last.start a && ltb a last.end) || z) (covers-merged r rest a h.1))
      | inr e ↦ elim (Bool-cases (leb r.end last.end)) [
        | inl f ↦ rw (e, f) (ground (arith, covers-merged last rest a (h.0.1, h.1.1)))
        | inr f ↦ rw (e, f) (ground (arith, covers-merged v rest a (h.0.1, h.1.1)))
      ]
    ]

-- The merge starts where the first range does.
merged-start :
    (last : Range) (rest : List Range)
    → (h : Range) × (t : List Range) × (merged last rest ≡ h ∷ t) × (h.start ≡ last.start)
unfolding merged
merged-start last [] = (last, [], refl, refl)
merged-start last (r ∷ rest) = elim (Bool-cases (ltb last.end r.start)) [
  | inl e ↦ rw e (last, merged r rest, refl, refl)
  | inr e ↦ elim (Bool-cases (leb r.end last.end)) [
    | inl f ↦ rw (e, f) (merged-start last rest)
    | inr f ↦ rw (e, f) (merged-start (record last { end = r.end }) rest)
  ]
]

are_apart-cons :
    (last : Range) (xs : List Range) {h : Range} {t : List Range}
    → xs ≡ h ∷ t
    → last.end < h.start
    → are_apart xs ≡ true
    → are_apart (last ∷ xs) ≡ true
unfolding are_apart
are_apart-cons last [] e l a = refl
are_apart-cons last (y ∷ ys) {h} e l a =
    let same : y ≡ h = cc in let k : last.end < y.start = rw same l in ground (arith, a, k)

are_apart-merged : (last : Range) (rest : List Range) → are_apart (merged last rest) ≡ true
unfolding merged are_apart
are_apart-merged last [] = refl
are_apart-merged last (r ∷ rest) = elim (Bool-cases (ltb last.end r.start)) [
  | inl e ↦
      let m = merged-start r rest in
      let l : last.end < m.0.start = ground (arith, e, m.3) in
      rw e (are_apart-cons last (merged r rest) m.2 l (are_apart-merged r rest))
  | inr e ↦ elim (Bool-cases (leb r.end last.end)) [
    | inl f ↦ rw (e, f) (are_apart-merged last rest)
    | inr f ↦ rw (e, f) (are_apart-merged (record last { end = r.end }) rest)
  ]
]

-- What a caller of `clean_up_ranges` gets.
pub record Cleaned (ranges clean : List Range) : Type 0 where
  pub apart : are_apart clean ≡ true
  pub same : (a : ℕ) → covers clean a ≡ covers ranges a

finished-sorted :
    (ranges sorted : List Range)
    → Ascends sorted
    → ((a : ℕ) → covers sorted a ≡ covers ranges a)
    → ¬ (sorted ≡ [])
    → (clean : List Range) × (finished (length sorted - 1) 1 (record { ranges = sorted; j = 0 })
        ≡ some clean)
      × Cleaned ranges clean
finished-sorted ranges [] h c n = absurd (n refl)
finished-sorted ranges (r ∷ rest) h c n = (
  merged r rest,
  let n : length (r ∷ rest) - 1 ≡ length rest = omega arith in
      rw n (finished-merged rest 1 (record { ranges = r ∷ rest; j = 0 }) r (omega arith) refl refl),
  record { apart = are_apart-merged r rest; same = λ a. covers-merged r rest a h ∙ c a },
)

insert_by_start-ne : (r : Range) (xs : List Range) → ¬ (insert_by_start r xs ≡ [])
unfolding insert_by_start
insert_by_start-ne r [] h = absurd cc
insert_by_start-ne r (s ∷ rest) h = elim (Bool-cases (leb r.start s.start)) [
  | inl e ↦ let k : r ∷ s ∷ rest ≡ [] = rw e at h in absurd cc
  | inr e ↦ let k : s ∷ insert_by_start r rest ≡ [] = rw e at h in absurd cc
]

-- On every list of ranges, `clean_up_ranges` returns without a panic. The ranges it leaves pass the
-- assertion of `find_ranges`: each ends before the next one starts. They have the same addresses
-- as the ranges that were given.
pub clean_up_ranges-Cleaned :
    (ranges : List Range)
    → (clean : List Range) × (clean_up_ranges ranges ≡ some clean) × Cleaned ranges clean
unfolding clean_up_ranges finished are_apart sort_by_start
clean_up_ranges-Cleaned [] = ([], refl, record { apart = refl; same = λ a. refl })
clean_up_ranges-Cleaned (r ∷ rest) =
    finished-sorted (r ∷ rest) (sort_by_start (r ∷ rest)) (sort_by_start-Ascends (r ∷ rest))
      (covers-sort_by_start (r ∷ rest)) (insert_by_start-ne r (sort_by_start rest))
