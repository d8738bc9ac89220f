-- ===== src/Layout/Tiles.antt =====
-- The children of a split of src/layout.rs fill it, with one cell for each wall between them.
use nnd.Base.{
  ℕ, ◌+◌, ◌-◌, ◌*◌, ◌^◌, ◌<◌, ◌≡◌, refl, ap, ◌∙◌, Bool, true, false, List, [], ◌∷◌, arith,
}
use nnd.Layout.{Child, CumSum, word, add_size, total_from, wall_pos, Place, places_from, places}
use nnd.Layout.Walls.{
  wall_before, fixed_sum, flexible_sum, portion-all, portion_none, Fits, part, Reaches,
  Reaches-Within, pass, wall_exact,
}

-- A place of a child, which has the child's size if that is fixed.
pub record Holds (c : Child) (p : Place) : Type 0 where
  pub size : c.is_fixed ≡ true → p.size ≡ c.size

-- Places that fill a split from one cell on to its end: each begins where the one before it ends,
-- behind a wall of one cell.
pub data Tiled (size : ℕ) : ℕ → List Child → List Place → Type 0 where
  last :
      (c : Child) (p : Place)
      → Holds c p
      → p.pos + p.size ≡ size
      → Tiled size p.pos (c ∷ []) (p ∷ [])
  next :
      (c : Child) (p : Place) {cs : List Child} {ps : List Place}
      → Holds c p
      → Tiled size (p.pos + p.size + 1) cs ps
      → Tiled size p.pos (c ∷ cs) (p ∷ ps)

module _ (size : ℕ) (total : CumSum) (fits : Fits size total) where
  total_reached :
      (inner : Bool) (s : CumSum) (cs : List Child)
      → Reaches size total fits inner s cs
      → total_from inner s cs ≡ total
  unfolding total_from
  total_reached inner s [] r =
      let a : s.fixed ≡ total.fixed = omega (arith, r.fixed) in
      let b : s.flexible ≡ total.flexible = omega (arith, r.flexible) in
      same_sums s.fixed s.flexible a b
    where
      same_sums :
          (a b : ℕ)
          → a ≡ total.fixed
          → b ≡ total.flexible
          → record { fixed = a; flexible = b } ≡ total
      same_sums a b e f = rw (e, f) refl
  total_reached inner s (c ∷ cs) r =
      total_reached true (add_size inner s c) cs (pass size total fits inner s c cs r).reaches

  -- At the total a wall would stand at the end of the split.
  end_of :
      (s : CumSum)
      → Reaches size total fits true s []
      → s.fixed + part size total fits s.flexible ≡ size
  end_of s r =
      let b : s.flexible ≡ total.flexible = omega (arith, r.flexible) in
      let all = portion-all (size - total.fixed) total.flexible fits.flexible in
      let e : part size total fits s.flexible ≡ size - total.fixed =
        ap (part size total fits) b ∙ all in
      omega (arith, e, r.fixed, fits.fixed)

  places_from-Tiled :
      (inner : Bool) (s : CumSum) (c : Child) (cs : List Child) (start : ℕ)
      → Reaches size total fits inner s (c ∷ cs)
      → start ≡ s.fixed + part size total fits s.flexible + wall_before inner
      → Tiled size start (c ∷ cs) (places_from size total inner start s (c ∷ cs))
  unfolding places_from
  places_from-Tiled inner s c [] start r e =
      let p = pass size total fits inner s c [] r in
      let stop = end_of (add_size inner s c) p.reaches in
      last c (record { pos = start; size = size - start })
        (record { size = λ f. omega (arith, p.exact f, stop, e) })
        (omega (arith, p.behind, stop, e))
  places_from-Tiled inner s c (d ∷ cs) start r e =
      let p = pass size total fits inner s c (d ∷ cs) r in
      let n = add_size inner s c in
      let w =
        wall_exact size total fits n (Reaches-Within size total fits true n (d ∷ cs) p.reaches) in
      let wall = wall_pos size total n in
      let here : start + (wall - start) ≡ wall = omega (arith, p.behind, e, w) in
      let further : wall + 1 ≡ n.fixed + part size total fits n.flexible + 1 = omega (arith, w) in
      next c (record { pos = start; size = wall - start })
        (record { size = λ f. omega (arith, p.exact f, e, w) })
        (rw here (places_from-Tiled true n d cs (wall + 1) p.reaches further))

-- Where the fixed children and the walls leave space, and there is a flexible child to fill it,
-- build_split fills the split: each child begins behind the wall at the end of the one before it,
-- the first at the start and the last up to the end, and each fixed child has its size. The
-- products of the size with the sum of the shares are below 2^64, and the size is below 2^63.
pub places-Tiled :
    (size : ℕ) (c : Child) (cs : List Child)
    → fixed_sum false (c ∷ cs) < size
    → 0 < flexible_sum (c ∷ cs)
    → size * flexible_sum (c ∷ cs) + flexible_sum (c ∷ cs) < word
    → size < 2 ^ 63
    → Tiled size 0 (c ∷ cs) (places size (c ∷ cs))
unfolding places
places-Tiled size c cs h k l m =
    let t : CumSum = record {
      fixed = fixed_sum false (c ∷ cs);
      flexible = flexible_sum (c ∷ cs);
    } in
    let z : CumSum = record { fixed = 0; flexible = 0 } in
    let f : Fits size t = record { fixed = h; flexible = k; product = l; small = omega arith } in
    let r : Reaches size t f false z (c ∷ cs) = record {
      fixed = omega arith;
      flexible = omega arith;
    } in
    let n = portion_none (size - t.fixed) t.flexible k in
    rw (total_reached size t f false z (c ∷ cs) r)
      (places_from-Tiled size t f false z c cs 0 r (omega (arith, n)))
