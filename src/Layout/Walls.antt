-- ===== src/Layout/Walls.antt =====
-- Where the walls between the children of a split of src/layout.rs stand: no sum overflows, and
-- the wall behind a child is where its place ends.
use nnd.Base.{
  ℕ, ◌+◌, ◌-◌, ◌*◌, ◌/◌, ◌%◌, ◌<◌, ◌≤◌, ◌≡◌, refl, sym, subst, Bool, true, false, leb, ◌==◌,
  if◌then◌else◌, List, [], ◌∷◌, inl, inr, arith, Bool-cases, ==_iff,
}
use native.Mathlib.Nat.{
  div-eq_of_lt-le, le-div_iff_mul-le, div-mul-le_self, mul-le-mul_left, mul-le-mul,
}
use nnd.Layout.{Child, CumSum, word, add_size, wall_pos}

abbrev pub wall_before : Bool → ℕ
wall_before true = 1
wall_before false = 0

-- The space that fixed children and walls take, and the shares of the others.
abbrev pub fixed_sum : Bool → List Child → ℕ
fixed_sum inner [] = 0
fixed_sum inner (c ∷ cs) =
    (if c.is_fixed then c.size else 0) + wall_before inner + fixed_sum true cs

abbrev pub flexible_sum : List Child → ℕ
flexible_sum [] = 0
flexible_sum (c ∷ cs) = (if c.is_fixed then 0 else c.size) + flexible_sum cs

-- The part of the rest of the space that is before a share.
module _ (rest all : ℕ) (some_share : 0 < all) where
  abbrev pub portion : ℕ → ℕ
  portion x = (rest * x + all / 2) / all

  pub portion-all : portion all ≡ rest
  portion-all =
      let e : (rest + 1) * all ≡ rest * all + all = grind arith in
      div-eq_of_lt-le {k = rest} all {m = rest * all + all / 2} (omega arith) (omega (arith, e))

  pub portion_none : portion 0 ≡ 0
  portion_none =
      let e : rest * 0 + all / 2 ≡ all / 2 = omega arith in
      rw e (div-eq_of_lt-le {k = 0} all {m = all / 2} (omega arith) (omega arith))

  portion_mono : (x y : ℕ) → x ≤ y → portion x ≤ portion y
  portion_mono x y h =
      let m : rest * x ≤ rest * y = mul-le-mul_left rest h in
      (le-div_iff_mul-le {k = all} {x = portion x} {y = rest * y + all / 2} some_share).1
        (omega (arith, div-mul-le_self (rest * x + all / 2) all, m))

-- The size of the split and the total of the sums, without an overflow.
pub record Fits (size : ℕ) (total : CumSum) : Type 0 where
  pub fixed : total.fixed < size
  pub flexible : 0 < total.flexible
  pub product : size * total.flexible + total.flexible < word
  pub small : size < word

module _ (size : ℕ) (total : CumSum) (fits : Fits size total) where
  abbrev pub part : ℕ → ℕ
  part = portion (size - total.fixed) total.flexible fits.flexible

  -- The sums before a wall are at most the total.
  pub record Within (s : CumSum) : Type 0 where
    pub fixed : s.fixed ≤ total.fixed
    pub flexible : s.flexible ≤ total.flexible

  pub wall_exact : (s : CumSum) → Within s → wall_pos size total s ≡ s.fixed + part s.flexible
  unfolding wall_pos
  wall_exact s w =
      let t : leb size total.fixed ≡ false = ground (arith, fits.fixed) in
      let all = portion-all (size - total.fixed) total.flexible fits.flexible in
      let most =
        portion_mono (size - total.fixed) total.flexible fits.flexible s.flexible total.flexible
          w.flexible in
      elim (Bool-cases (s.flexible == 0)) [
        | inl e ↦
            let z : s.flexible ≡ 0 = (==_iff s.flexible 0).0 e in
            let n = portion_none (size - total.fixed) total.flexible fits.flexible in
            rw (t, e) (rw z (omega (arith, n)))
        | inr e ↦
            let y = (size - total.fixed) * s.flexible in
            let a : (size - total.fixed) * s.flexible ≤ size * total.flexible =
              mul-le-mul (omega arith) w.flexible in
            let m : y % word ≡ y = omega (arith, a, fits.product) in
            let n : (y + total.flexible / 2) % word ≡ y + total.flexible / 2 =
              omega (arith, a, fits.product) in
            let o : (s.fixed + part s.flexible) % word ≡ s.fixed + part s.flexible =
              omega (arith, all, most, w.fixed, fits.fixed, fits.small) in
            rw (t, e, m, n, o) refl
      ]

  -- The sums before a wall, and what is still to come behind it.
  pub record Reaches (inner : Bool) (s : CumSum) (cs : List Child) : Type 0 where
    pub fixed : s.fixed + fixed_sum inner cs ≡ total.fixed
    pub flexible : s.flexible + flexible_sum cs ≡ total.flexible

  pub Reaches-Within : (inner : Bool) (s : CumSum) (cs : List Child) → Reaches inner s cs → Within s
  Reaches-Within inner s cs r = record {
    fixed = omega (arith, r.fixed);
    flexible = omega (arith, r.flexible);
  }

  -- A child on the way: the wall behind it is where its place ends.
  pub record Passed (next : CumSum) (c : Child) (cs : List Child) (start : ℕ) : Type 0 where
    pub reaches : Reaches true next cs
    pub behind : start ≤ next.fixed + part next.flexible
    pub exact : c.is_fixed ≡ true → next.fixed + part next.flexible ≡ start + c.size

  pass_fixed :
      (inner : Bool) (s : CumSum) (n : ℕ) (cs : List Child)
      → (let c : Child = record { is_fixed = true; size = n } in
          Reaches inner s (c ∷ cs)
          → Passed (add_size inner s c) c cs (s.fixed + part s.flexible + wall_before inner))
  unfolding add_size
  pass_fixed inner s n cs r =
      let c : Child = record { is_fixed = true; size = n } in
      let m : (s.fixed + n) % word ≡ s.fixed + n = omega (arith, r.fixed, fits.fixed, fits.small) in
      let next : CumSum = record {
        fixed = s.fixed + n + wall_before inner;
        flexible = s.flexible;
      } in
      subst (λ z. Passed z c cs (s.fixed + part s.flexible + wall_before inner))
        (sym (added inner m r))
        (record {
          reaches = record { fixed = omega (arith, r.fixed); flexible = omega (arith, r.flexible) };
          behind = omega arith;
          exact = λ e. omega arith;
        })
    where
      added :
          (inner : Bool)
          → (s.fixed + n) % word ≡ s.fixed + n
          → Reaches inner s (record { is_fixed = true; size = n } ∷ cs)
          → add_size inner s (record { is_fixed = true; size = n })
            ≡ record { fixed = s.fixed + n + wall_before inner; flexible = s.flexible }
      added true m r =
          let k : (s.fixed + n + 1) % word ≡ s.fixed + n + 1 =
            omega (arith, r.fixed, fits.fixed, fits.small) in
          rw (m, k) refl
      added false m r = let k : s.fixed + n + 0 ≡ s.fixed + n = omega arith in rw (m, k) refl

  pass_flexible :
      (inner : Bool) (s : CumSum) (n : ℕ) (cs : List Child)
      → (let c : Child = record { is_fixed = false; size = n } in
          Reaches inner s (c ∷ cs)
          → Passed (add_size inner s c) c cs (s.fixed + part s.flexible + wall_before inner))
  unfolding add_size
  pass_flexible inner s n cs r =
      let c : Child = record { is_fixed = false; size = n } in
      let m : (s.flexible + n) % word ≡ s.flexible + n = omega (arith, r.flexible, fits.product) in
      let mono =
        portion_mono (size - total.fixed) total.flexible fits.flexible s.flexible (s.flexible + n)
          (omega arith) in
      subst (λ z. Passed z c cs (s.fixed + part s.flexible + wall_before inner))
        (sym (added inner m r))
        (record {
          reaches = record { fixed = omega (arith, r.fixed); flexible = omega (arith, r.flexible) };
          behind = omega (arith, mono);
          exact = λ e. absurd cc;
        })
    where
      added :
          (inner : Bool)
          → (s.flexible + n) % word ≡ s.flexible + n
          → Reaches inner s (record { is_fixed = false; size = n } ∷ cs)
          → add_size inner s (record { is_fixed = false; size = n })
            ≡ record { fixed = s.fixed + wall_before inner; flexible = s.flexible + n }
      added true m r =
          let k : (s.fixed + 1) % word ≡ s.fixed + 1 =
            omega (arith, r.fixed, fits.fixed, fits.small) in
          rw (m, k) refl
      added false m r = let k : s.fixed + 0 ≡ s.fixed = omega arith in rw (m, k) refl

  pub pass :
      (inner : Bool) (s : CumSum) (c : Child) (cs : List Child)
      → Reaches inner s (c ∷ cs)
      → Passed (add_size inner s c) c cs (s.fixed + part s.flexible + wall_before inner)
  pass inner s c cs r = by_kind c.is_fixed c.size r
    where
      by_kind :
          (f : Bool) (n : ℕ)
          → (let c : Child = record { is_fixed = f; size = n } in
              Reaches inner s (c ∷ cs)
              → Passed (add_size inner s c) c cs (s.fixed + part s.flexible + wall_before inner))
      by_kind true n r = pass_fixed inner s n cs r
      by_kind false n r = pass_flexible inner s n cs r
