-- ===== src/Disassembly/Merge.antt =====
-- The loop of `clean_up_ranges` of src/disassembly.rs overwrites the vector in place: it is a merge
-- of the sorted list.
use nnd.Base.{
  ℕ, suc, ◌+◌, ◌<◌, ◌≡◌, refl, ap, ◌∙◌, inl, inr, ltb, leb, if◌then◌else◌, List, [], ◌∷◌, ◌++◌,
  Option, some, ◌>>=◌, length, take, drop, set, get_elem?, arith, Bool-cases, append_assoc,
  get_elem?-lt, get_elem?-set_self, take-get, take-set, drop-set, drop-head,
}
use nnd.RangeIndex.{Range}
use nnd.Disassembly.{CleanUp, clean_up_step, clean_up_loop, truncated}

-- The loop on the sorted list, without the vector.
unfoldable pub merged : Range → List Range → List Range
merged last [] = last ∷ []
merged last (r ∷ rest) =
    let next = last ∷ merged r rest in
    let kept = merged last rest in
    let longer = merged (record last { end = r.end }) rest in
    if ltb last.end r.start then next else if leb r.end last.end then kept else longer

-- What the call does after the sort, from the index `i` on.
unfoldable pub finished : (left i : ℕ) → CleanUp → Option (List Range)
unfolding clean_up_loop truncated
finished left i s = clean_up_loop left i s >>= λ t. some (truncated t)

-- A step that gives the vector `t`, and what the rounds after it do.
step-finished :
    (left i : ℕ) (s : CleanUp) (r last : Range)
    → get_elem? s.ranges i ≡ some r
    → get_elem? s.ranges s.j ≡ some last
    → finished (suc left) i s ≡ finished left (suc i) (clean_up_step s r last)
unfolding finished clean_up_loop
step-finished left i s r last h g = rw (h, g) refl

-- The vector up to `j` is final but for its last range, and from `i` on it is as it was.
pub finished-merged :
    (rest : List Range) (i : ℕ) (s : CleanUp) (last : Range)
    → s.j < i
    → drop i s.ranges ≡ rest
    → get_elem? s.ranges s.j ≡ some last
    → finished (length rest) i s ≡ some (take s.j s.ranges ++ merged last rest)
unfolding finished clean_up_loop truncated merged clean_up_step
finished-merged [] i s last lt d g =
    let e : s.j + 1 ≡ suc s.j = omega arith in ap some (rw e (take-get s.ranges s.j g))
finished-merged (r ∷ rest) i s last lt d g =
    let h = drop-head s.ranges i d in
    let there = get_elem?-lt s.ranges i h.0 in
    let go = step-finished (length rest) i s r last h.0 g in
    elim (Bool-cases (ltb last.end r.start)) [
      | inl e ↦
          let u = set s.ranges (s.j + 1) r in
          let n : s.j + 1 ≡ suc s.j = omega arith in
          let k : take (s.j + 1) u ≡ take s.j s.ranges ++ last ∷ [] =
            take-set s.ranges (s.j + 1) r ∙ rw n (take-get s.ranges s.j g) in
          let all =
            finished-merged rest (suc i) (record { ranges = u; j = s.j + 1 }) r (omega arith)
              (drop-set s.ranges (s.j + 1) (suc i) r (omega arith) ∙ h.1)
              (get_elem?-set_self s.ranges (s.j + 1) r (omega arith)) in
          go
          ∙ rw e
              (all ∙ ap some (rw k (append_assoc (take s.j s.ranges) (last ∷ []) (merged r rest))))
      | inr e ↦ elim (Bool-cases (leb r.end last.end)) [
        | inl f ↦ go ∙ rw (e, f) (finished-merged rest (suc i) s last (omega arith) h.1 g)
        | inr f ↦
            let v = record last { end = r.end } in
            let all =
              finished-merged rest (suc i) (record s { ranges = set s.ranges s.j v }) v
                (omega arith) (drop-set s.ranges s.j (suc i) v (omega arith) ∙ h.1)
                (get_elem?-set_self s.ranges s.j v (omega arith)) in
            go ∙ rw (e, f) (rw (take-set s.ranges s.j v) at all)
      ]
    ]
