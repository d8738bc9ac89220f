-- ===== src/Search/Match.antt =====
-- What `fuzzy_match` of src/search.rs returns.
use nnd.Base.{
  ℕ, zero, suc, ◌+◌, ◌-◌, ◌*◌, ◌≤◌, ◌≡◌, refl, sym, ◌∙◌, Bool, false, List, [], ◌∷◌, Option, none,
  some, inl, inr, Bytes, length, take, drop, map, arith, Bool-cases, ◌==◌, ltb, length-take,
  length-map, Option-cases, append-nil, get_elem?_found,
}
use nnd.RangeIndex.{Range}
use nnd.Search.{
  folded, memmem, Pieces, close_piece, piece_loop, bool_bit, scored, is_ascii_alphanumeric,
  suffix_match, alphanum_before, alphanum_at, substring_match, pieces_found, subsequence_match,
  fuzzy_match,
}
use nnd.Search.Spelled.{slice, Spread, Spread-length, IsPlaced-up}
use nnd.Search.Taken.{Inv, piece_loop-Inv, piece_loop-Spread}
use nnd.Search.Says.{
  Says, Says-scored, Tells, packed_one, packed_two, take_all, take-drop-take, end_spelled,
}
use nnd.Search.Window.{memmem_found}

suffix_match-Tells :
    (b : Bool) (haystack needle : Bytes) (i : ℕ)
    → length needle ≤ length haystack
    → memmem (drop (length haystack - length needle) haystack) needle b ≡ some i
    → Tells b haystack needle (suffix_match haystack needle)
unfolding suffix_match Says
suffix_match-Tells b hay needle i le h =
    let n = length needle in
    let from = length hay - n in
    let s = end_spelled b hay needle i le h in
    elim (Bool-cases (length hay == n)) [
      | inl e ↦
          let z : from ≡ 0 = ground (arith, e) in
          let t : map (folded b) (take (length hay - 0) hay) ≡ needle = rw z at s in
          let k : length hay - 0 ≡ length hay = omega arith in
          let u : take (length hay) hay ≡ hay = take_all (length hay) hay (omega arith) in
          rw e (record { score = some 0; match_ranges = [] }, refl, rw (k, u) at t)
      | inr e ↦
          let g = get_elem?_found hay (from - 1) (ground (arith, e)) in
          let c = bool_bit (is_ascii_alphanumeric g.0) * 2 in
          let range : Range = record { start = from; end = length hay } in
          rw (e, g.1)
            (
              scored 1 c hay (range ∷ []),
              refl,
              Says-scored b hay needle 1 c (range ∷ []) (packed_one c (length hay))
                  (append-nil (slice b hay from (length hay)) ∙ s)
                  (omega arith, omega arith, omega arith),
            )
    ]

before_found :
    (haystack : Bytes) (i : ℕ)
    → i ≤ length haystack
    → (c : Bool) × (alphanum_before haystack i ≡ some c)
unfolding alphanum_before
before_found hay zero h = (false, refl)
before_found hay (suc i) h =
    let g = get_elem?_found hay i (omega arith) in rw g.1 (is_ascii_alphanumeric g.0, refl)

substring_match-Tells :
    (b : Bool) (haystack needle : Bytes) (i : ℕ)
    → memmem (take (length haystack - 1) haystack) needle b ≡ some i
    → Tells b haystack needle (substring_match haystack needle i)
unfolding substring_match
substring_match-Tells b hay needle i h =
    let n = length needle in
    let m = memmem_found b (take (length hay - 1) hay) needle i h in
    let t = length-take (length hay - 1) hay in
    let f = before_found hay i (omega (arith, m.0, t)) in
    let extra = 4 + bool_bit f.0 * 2 + bool_bit (alphanum_at hay (i + n)) in
    let range : Range = record { start = i; end = i + n } in
    let k : i + n - i ≡ n = omega arith in
    let w : map (folded b) (take n (drop i (take (length hay - 1) hay))) ≡ needle = rw k at m.1 in
    let v : map (folded b) (take n (drop i hay)) ≡ needle =
      rw (take-drop-take i n (length hay - 1) hay (omega (arith, m.0, t))) at w in
    rw f.1 (
      scored 1 extra hay (range ∷ []),
      refl,
      Says-scored b hay needle 1 extra (range ∷ []) (packed_one extra (length hay))
          (append-nil (slice b hay i (i + n)) ∙ rw k v)
          (omega arith, omega arith, omega (arith, m.0, t)),
    )

pieces_found-Says :
    (b : Bool) (haystack needle : Bytes) (i : ℕ) (ns : Bytes) (ms : Option ℕ) (ranges : List Range)
    → i ≤ length haystack
    → (let s : Pieces = record { needle = ns; match_start = ms; match_ranges = ranges } in
        let f = pieces_found haystack (i, s) in
        Inv b haystack needle i s
        → (Spread needle (map (folded b) haystack) → ns ≡ [])
        → Says b haystack needle f.score f.match_ranges)
unfolding pieces_found Says
pieces_found-Says b hay needle i [] ms ranges le inv all =
    let all = close_piece ms i ranges in
    Says-scored b hay needle 2 (length all) all (packed_two (length all) (length hay))
      (inv.spells ∙ sym (append-nil inv.taken) ∙ inv.split)
      (IsPlaced-up 0 all i (length hay) inv.placed le)
pieces_found-Says b hay needle i (n ∷ ns) ms ranges le inv all =
    λ p. let e : n ∷ ns ≡ [] = all p in absurd cc

subsequence_match-Says :
    (b : Bool) (haystack needle : Bytes)
    → (let f = subsequence_match haystack needle b in Says b haystack needle f.score f.match_ranges)
unfolding subsequence_match close_piece
subsequence_match-Says b hay needle =
    let s : Pieces = record { needle = needle; match_start = none; match_ranges = [] } in
    let start : Inv b hay needle 0 s = record {
      taken = [];
      split = refl;
      spells = refl;
      placed = omega arith;
      begun = λ k h. absurd cc;
    } in
    let r = piece_loop b hay 0 s in
    let h = piece_loop-Inv b hay needle hay 0 s refl (omega arith) start in
    pieces_found-Says b hay needle r.0 r.1.needle r.1.match_start r.1.match_ranges h.1 h.0
      (λ p. piece_loop-Spread b hay 0 needle none [] p)

memmem_empty :
    (b : Bool) (haystack needle : Bytes) → length needle ≡ 0 → ¬ (memmem haystack needle b ≡ none)
unfolding memmem
memmem_empty b hay [] z h = absurd cc
memmem_empty b hay (n ∷ ns) z h = absurd (omega arith)

-- `fuzzy_match` returns on every haystack and needle without a panic. Without a score the needle
-- cannot be spread over the haystack, byte for byte and in order, where case is ignored if
-- `case_sensitive` is false. With the score 0 the two are the same, and with any other score the ranges that it pushes lie in the
-- haystack, one behind the other, and spell the needle.
pub fuzzy_match-Tells :
    (haystack needle : Bytes) (case_sensitive : Bool)
    → Tells case_sensitive haystack needle (fuzzy_match haystack needle case_sensitive)
unfolding fuzzy_match Says
fuzzy_match-Tells hay needle b =
    let len = length hay in
    let n = length needle in
    elim (Bool-cases (ltb len n)) [
      | inl e ↦ rw e (
        record { score = none; match_ranges = [] },
        refl,
        λ p. absurd (ground (arith, e, Spread-length p, length-map hay (folded b))),
      )
      | inr e ↦ elim (Option-cases (memmem (drop (len - n) hay) needle b)) [
        | inr (i, g) ↦ rw (e, g) (suffix_match-Tells b hay needle i (ground (arith, e)) g)
        | inl g ↦ elim (Bool-cases (len == 0)) [
          | inl z ↦ absurd (memmem_empty b (drop (len - n) hay) needle (ground (arith, e, z)) g)
          | inr z ↦ elim (Option-cases (memmem (take (len - 1) hay) needle b)) [
            | inr (i, k) ↦ rw (e, g, z, k) (substring_match-Tells b hay needle i k)
            | inl k ↦
                rw (e, g, z, k)
                  (subsequence_match hay needle b, refl, subsequence_match-Says b hay needle)
          ]
        ]
      ]
    ]
