-- ===== src/Search/Taken.antt =====
-- The loop of `fuzzy_match` in src/search.rs over the haystack: what is pushed spells what has been
-- taken off the needle, and all of it is taken off where it is spread over the haystack.
use nnd.Base.{
  ℕ, suc, ◌-◌, ◌≤◌, ◌≡◌, refl, sym, ap, subst, ◌∙◌, Bool, true, false, List, [], ◌∷◌, ◌++◌, Option,
  none, some, inl, inr, Bytes, length, drop, map, get_elem?, arith, append_assoc, append-nil,
  drop-head, Bool-cases, ◌==◌, ==_iff, get_elem?-lt, some-injective,
}
use nnd.RangeIndex.{Range}
use nnd.Search.{folded, Pieces, start_or, close_piece, piece_step, piece_loop}
use nnd.Search.Spelled.{
  slice, spelled, Spread, Spread-length, Spread-rest, Spread-other, slice_grows, spelled-append,
  IsPlaced, IsPlaced-up, IsPlaced-push, IsPlaced-widen,
}

module _ (case_sensitive : Bool) (haystack needle : Bytes) where
  -- The state at the index `i`.
  pub record Inv (i : ℕ) (s : Pieces) : Type 0 where
    pub taken : Bytes
    pub split : taken ++ s.needle ≡ needle
    pub spells :
        spelled case_sensitive haystack (close_piece s.match_start i s.match_ranges) ≡ taken
    pub placed : IsPlaced 0 (close_piece s.match_start i s.match_ranges) i
    pub begun : (k : ℕ) → s.match_start ≡ some k → k ≤ i

  module _ (i n c : ℕ) (ns : Bytes) (get : get_elem? haystack i ≡ some c) where
    -- A byte that is taken.
    took :
        (ms : Option ℕ) (ranges : List Range)
        → folded case_sensitive c ≡ n
        → Inv i (record { needle = n ∷ ns; match_start = ms; match_ranges = ranges })
        → Inv
            (suc i)
            (record { needle = ns; match_start = some (start_or ms i); match_ranges = ranges })
    unfolding close_piece start_or
    took none ranges e inv =
        let z : i - i ≡ 0 = omega arith in
        let one : slice case_sensitive haystack i (suc i) ≡ n ∷ [] =
          slice_grows case_sensitive haystack i i (omega arith) get ∙ rw (z, e) refl in
        record {
          taken = inv.taken ++ n ∷ [];
          split = append_assoc inv.taken (n ∷ []) ns ∙ inv.split;
          spells =
              spelled-append case_sensitive haystack ranges (record { start = i; end = suc i } ∷ [])
              ∙ rw (one, inv.spells) refl;
          placed = IsPlaced-push 0 ranges i (suc i) inv.placed (omega arith);
          begun = λ k h. omega (arith, some-injective _ _ h);
        }
    took (some m) ranges e inv =
        let more = slice_grows case_sensitive haystack m i (inv.begun m refl) get in
        let front = spelled case_sensitive haystack ranges in
        let last = slice case_sensitive haystack m i in
        let base : front ++ (last ++ []) ≡ inv.taken =
          sym (spelled-append case_sensitive haystack ranges (record { start = m; end = i } ∷ []))
          ∙ inv.spells in
        let whole : front ++ last ≡ inv.taken = rw append-nil at base in
        record {
          taken = inv.taken ++ n ∷ [];
          split = append_assoc inv.taken (n ∷ []) ns ∙ inv.split;
          spells =
              spelled-append case_sensitive haystack ranges (record { start = m; end = suc i } ∷ [])
              ∙ rw (more, e, append-nil)
                  (sym (append_assoc front last (n ∷ [])) ∙ ap (λ z. z ++ n ∷ []) whole);
          placed = IsPlaced-widen 0 ranges m i i (suc i) inv.placed (omega arith);
          begun = λ k h. omega (arith, some-injective _ _ h, inv.begun m refl);
        }

    -- A byte that is passed over.
    passed :
        (ms : Option ℕ) (ranges : List Range)
        → Inv i (record { needle = n ∷ ns; match_start = ms; match_ranges = ranges })
        → Inv
            (suc i)
            (record { needle = n ∷ ns; match_start = none; match_ranges = close_piece ms i ranges })
    unfolding close_piece
    passed ms ranges inv = record {
      taken = inv.taken;
      split = inv.split;
      spells = inv.spells;
      placed = IsPlaced-up 0 (close_piece ms i ranges) i (suc i) inv.placed (omega arith);
      begun = λ k h. absurd cc;
    }

    piece_step-Inv :
        (ms : Option ℕ) (ranges : List Range)
        → Inv i (record { needle = n ∷ ns; match_start = ms; match_ranges = ranges })
        → Inv (suc i) (
            piece_step case_sensitive c i
              (record { needle = n ∷ ns; match_start = ms; match_ranges = ranges }))
    unfolding piece_step
    piece_step-Inv ms ranges inv = elim (Bool-cases (folded case_sensitive c == n)) [
      | inl e ↦ rw e (took ms ranges ((==_iff (folded case_sensitive c) n).0 e) inv)
      | inr e ↦ rw e (passed ms ranges inv)
    ]

  piece_loop_parts :
      (hs : Bytes) (i : ℕ) (ns : Bytes) (ms : Option ℕ) (ranges : List Range)
      → drop i haystack ≡ hs
      → i ≤ length haystack
      → (let s : Pieces = record { needle = ns; match_start = ms; match_ranges = ranges } in
          let r = piece_loop case_sensitive hs i s in
          Inv i s → Inv r.0 r.1 × (r.0 ≤ length haystack))
  unfolding piece_loop
  piece_loop_parts [] i ns ms ranges d le inv = (inv, le)
  piece_loop_parts (c ∷ cs) i [] ms ranges d le inv = (inv, le)
  piece_loop_parts (c ∷ cs) i (n ∷ ns) ms ranges d le inv =
      let h = drop-head haystack i d in
      let s : Pieces = record { needle = n ∷ ns; match_start = ms; match_ranges = ranges } in
      let t = piece_step case_sensitive c i s in
      piece_loop_parts cs (suc i) t.needle t.match_start t.match_ranges h.1
        (omega (arith, get_elem?-lt haystack i h.0)) (piece_step-Inv i n c ns h.0 ms ranges inv)

  -- The ranges at the end spell the bytes that were taken off the needle.
  pub piece_loop-Inv :
      (hs : Bytes) (i : ℕ) (s : Pieces)
      → drop i haystack ≡ hs
      → i ≤ length haystack
      → Inv i s
      → (let r = piece_loop case_sensitive hs i s in Inv r.0 r.1 × (r.0 ≤ length haystack))
  piece_loop-Inv hs i s d le inv =
      piece_loop_parts hs i s.needle s.match_start s.match_ranges d le inv

-- A needle that is spread over the rest of the haystack is found.
pub piece_loop-Spread :
    (case_sensitive : Bool) (hs : Bytes) (i : ℕ) (ns : Bytes) (ms : Option ℕ) (ranges : List Range)
    → Spread ns (map (folded case_sensitive) hs)
    → (piece_loop case_sensitive hs i
        (record { needle = ns; match_start = ms; match_ranges = ranges })).1.needle
      ≡ []
unfolding piece_loop piece_step
piece_loop-Spread b [] i [] ms ranges p = refl
piece_loop-Spread b [] i (n ∷ ns) ms ranges p = absurd (omega (arith, Spread-length p))
piece_loop-Spread b (c ∷ cs) i [] ms ranges p = refl
piece_loop-Spread b (c ∷ cs) i (n ∷ ns) ms ranges p = elim (Bool-cases (folded b c == n)) [
  | inl e ↦
      subst (λ t. (piece_loop b cs (suc i) t).1.needle ≡ []) (sym (hit e))
        (piece_loop-Spread b cs (suc i) ns (some (start_or ms i)) ranges (Spread-rest p))
  | inr e ↦
      subst (λ t. (piece_loop b cs (suc i) t).1.needle ≡ []) (sym (miss e))
        (piece_loop-Spread b cs (suc i) (n ∷ ns) none (close_piece ms i ranges)
          (Spread-other p (apart e)))
]
  where
    s : Pieces
    s = record { needle = n ∷ ns; match_start = ms; match_ranges = ranges }

    hit :
        (folded b c == n) ≡ true
        → piece_step b c i s
          ≡ record { needle = ns; match_start = some (start_or ms i); match_ranges = ranges }
    hit e = rw e refl

    miss :
        (folded b c == n) ≡ false
        → piece_step b c i s
          ≡ record { needle = n ∷ ns; match_start = none; match_ranges = close_piece ms i ranges }
    miss e = rw e refl

    apart : (folded b c == n) ≡ false → ¬ (folded b c ≡ n)
    apart e q = absurd (ground (arith, e, q))
