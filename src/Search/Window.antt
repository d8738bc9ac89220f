-- ===== src/Search/Window.antt =====
-- `memmem_maybe_case_sensitive` of src/search.rs: the needle stands where it was found.
use nnd.Base.{
  ℕ, zero, suc, ◌+◌, ◌-◌, ◌≤◌, ◌≡◌, refl, subst, Bool, true, false, [], ◌∷◌, none, some, inl, inr,
  Bytes, length, take, drop, map, arith, Bool-cases, ◌==◌, ==_iff, ltb, some-injective, length-drop,
}
use nnd.Search.{folded, is_window, first_window, memmem}
use nnd.Search.Spelled.{slice}

-- The first text is at the front of the second.
record Front (case_sensitive : Bool) (haystack needle : Bytes) : Type 0 where
  fits : length needle ≤ length haystack
  same : map (folded case_sensitive) (take (length needle) haystack) ≡ needle

is_window-Front :
    (b : Bool) (haystack needle : Bytes)
    → is_window b haystack needle ≡ true
    → Front b haystack needle
unfolding is_window
is_window-Front b hs [] h = record { fits = omega arith; same = refl }
is_window-Front b [] (n ∷ ns) h = absurd cc
is_window-Front b (c ∷ cs) (n ∷ ns) h = elim (Bool-cases (folded b c == n)) [
  | inl e ↦
      let f = is_window-Front b cs ns (rw e at h) in
      let k : folded b c ≡ n = (==_iff (folded b c) n).0 e in
      record { fits = omega (arith, f.fits); same = rw (k, f.same) refl }
  | inr e ↦ let k : false ≡ true = rw e at h in absurd cc
]

drop_one : (xs : Bytes) (i : ℕ) → drop 1 (drop i xs) ≡ drop (suc i) xs
drop_one [] zero = refl
drop_one [] (suc i) = refl
drop_one (x ∷ xs) zero = refl
drop_one (x ∷ xs) (suc i) = drop_one xs i

first_window-Front :
    (b : Bool) (haystack needle : Bytes) (left i j : ℕ)
    → first_window b needle left i (drop i haystack) ≡ some j
    → Front b (drop j haystack) needle
unfolding first_window
first_window-Front b hay needle zero i j h = absurd cc
first_window-Front b hay needle (suc left) i j h =
    elim (Bool-cases (is_window b (drop i hay) needle)) [
      | inl e ↦
          let k : i ≡ j = some-injective _ _ (rw e at h) in
          subst (λ z. Front b (drop z hay) needle) k (is_window-Front b (drop i hay) needle e)
      | inr e ↦ first_window-Front b hay needle left (suc i) j (rw (e, drop_one hay i) at h)
    ]

-- Where `memmem` returns an index, the needle is in the haystack from there on.
pub memmem_found :
    (b : Bool) (haystack needle : Bytes) (i : ℕ)
    → memmem haystack needle b ≡ some i
    → (i + length needle ≤ length haystack) × (slice b haystack i (i + length needle) ≡ needle)
unfolding memmem
memmem_found b hay [] i h =
    let k : 0 ≡ i = some-injective _ _ h in
    let z : i + 0 - i ≡ 0 = omega arith in (omega arith, rw z refl)
memmem_found b hay (n ∷ ns) i h = elim (Bool-cases (ltb (length hay) (length (n ∷ ns)))) [
  | inl e ↦ let k : none ≡ some i = rw e at h in absurd cc
  | inr e ↦
      let f =
        first_window-Front b hay (n ∷ ns) (length hay - length (n ∷ ns) + 1) 0 i (rw e at h) in
      let z : i + length (n ∷ ns) - i ≡ length (n ∷ ns) = omega arith in
      (omega (arith, f.fits, length-drop i hay), rw z f.same)
]
