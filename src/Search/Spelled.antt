-- ===== src/Search/Spelled.antt =====
-- What the ranges that src/search.rs reports spell, and when a text is spread over another.
use nnd.Base.{
  ℕ, zero, suc, ◌+◌, ◌-◌, ◌≤◌, ◌≡◌, refl, sym, ap, ◌∙◌, Bool, List, [], ◌∷◌, ◌++◌, some, Bytes,
  length, take, drop, map, get_elem?, arith, append_assoc, take-get,
}
use nnd.RangeIndex.{Range}
use nnd.Search.{folded}

-- The bytes of a range, folded as they are compared.
abbrev pub slice : Bool → Bytes → ℕ → ℕ → Bytes
slice case_sensitive haystack start end =
    map (folded case_sensitive) (take (end - start) (drop start haystack))

-- The bytes of all ranges, one after the other.
abbrev pub spelled : Bool → Bytes → List Range → Bytes
spelled case_sensitive haystack [] = []
spelled case_sensitive haystack (r ∷ rest) =
    slice case_sensitive haystack r.start r.end ++ spelled case_sensitive haystack rest

-- The first text is left where bytes of the second are taken out.
pub data Spread : Bytes → Bytes → Type 0 where
  done : Spread [] []
  skip : {ns hs : Bytes} {h : ℕ} → Spread ns hs → Spread ns (h ∷ hs)
  pick : {ns hs : Bytes} {h : ℕ} → Spread ns hs → Spread (h ∷ ns) (h ∷ hs)

pub Spread-nil : (hs : Bytes) → Spread [] hs
Spread-nil [] = done
Spread-nil (h ∷ hs) = skip (Spread-nil hs)

Spread-tail : {n : ℕ} {ns hs : Bytes} → Spread (n ∷ ns) hs → Spread ns hs
Spread-tail (skip s) = skip (Spread-tail s)
Spread-tail (pick s) = skip s

-- The rest, behind a byte of each.
pub Spread-rest : {n h : ℕ} {ns hs : Bytes} → Spread (n ∷ ns) (h ∷ hs) → Spread ns hs
Spread-rest (skip s) = Spread-tail s
Spread-rest (pick s) = s

-- Where the first bytes differ, that of the second text is left out.
pub Spread-other :
    {n h : ℕ} {ns hs : Bytes} → Spread (n ∷ ns) (h ∷ hs) → ¬ (h ≡ n) → Spread (n ∷ ns) hs
Spread-other (skip s) d = s
Spread-other (pick s) d = absurd (d refl)

pub Spread-length : {ns hs : Bytes} → Spread ns hs → length ns ≤ length hs
Spread-length done = omega arith
Spread-length (skip s) = omega (arith, Spread-length s)
Spread-length (pick s) = omega (arith, Spread-length s)

drop-get : {A : Type 0} (xs : List A) (i j : ℕ) → get_elem? (drop i xs) j ≡ get_elem? xs (i + j)
drop-get xs zero j = let n : 0 + j ≡ j = omega arith in rw n refl
drop-get [] (suc i) j = refl
drop-get (x ∷ xs) (suc i) j =
    let n : suc i + j ≡ suc (i + j) = omega arith in rw n (drop-get xs i j)

map-append : {A : Type 0} (f : A → ℕ) (xs ys : List A) → map f (xs ++ ys) ≡ map f xs ++ map f ys
map-append f [] ys = refl
map-append f (x ∷ xs) ys = ap (◌∷◌ (f x)) (map-append f xs ys)

-- A range that grows by a byte.
pub slice_grows :
    (case_sensitive : Bool) (haystack : Bytes) (s i : ℕ) {c : ℕ}
    → s ≤ i
    → get_elem? haystack i ≡ some c
    → slice case_sensitive haystack s (suc i)
      ≡ slice case_sensitive haystack s i ++ folded case_sensitive c ∷ []
slice_grows b haystack s i {c} le g =
    let n : suc i - s ≡ suc (i - s) = omega arith in
    let k : s + (i - s) ≡ i = omega arith in
    let h : get_elem? (drop s haystack) (i - s) ≡ some c = drop-get haystack s (i - s) ∙ rw k g in
    rw (n, take-get (drop s haystack) (i - s) h)
      (map-append (folded b) (take (i - s) (drop s haystack)) (c ∷ []))

pub spelled-append :
    (case_sensitive : Bool) (haystack : Bytes) (rs qs : List Range)
    → spelled case_sensitive haystack (rs ++ qs)
      ≡ spelled case_sensitive haystack rs ++ spelled case_sensitive haystack qs
spelled-append b haystack [] qs = refl
spelled-append b haystack (r ∷ rs) qs =
    ap (λ z. slice b haystack r.start r.end ++ z) (spelled-append b haystack rs qs)
    ∙ sym (
        append_assoc (slice b haystack r.start r.end) (spelled b haystack rs)
          (spelled b haystack qs))

-- The ranges follow one another between two indices.
abbrev pub IsPlaced : ℕ → List Range → ℕ → Type 0
IsPlaced lo [] hi = lo ≤ hi
IsPlaced lo (r ∷ rest) hi = (lo ≤ r.start) × (r.start ≤ r.end) × IsPlaced r.end rest hi

pub IsPlaced-up :
    (lo : ℕ) (rs : List Range) (hi up : ℕ) → IsPlaced lo rs hi → hi ≤ up → IsPlaced lo rs up
IsPlaced-up lo [] hi up p h = omega arith
IsPlaced-up lo (r ∷ rs) hi up p h = (p.0, p.1, IsPlaced-up r.end rs hi up p.2 h)

pub IsPlaced-push :
    (lo : ℕ) (rs : List Range) (s e : ℕ)
    → IsPlaced lo rs s
    → s ≤ e
    → IsPlaced lo (rs ++ record { start = s; end = e } ∷ []) e
IsPlaced-push lo [] s e p h = omega arith
IsPlaced-push lo (r ∷ rs) s e p h = (p.0, p.1, IsPlaced-push r.end rs s e p.2 h)

pub IsPlaced-widen :
    (lo : ℕ) (rs : List Range) (s e hi up : ℕ)
    → IsPlaced lo (rs ++ record { start = s; end = e } ∷ []) hi
    → e ≤ up
    → IsPlaced lo (rs ++ record { start = s; end = up } ∷ []) up
IsPlaced-widen lo [] s e hi up p h = omega (arith, p.0, p.1)
IsPlaced-widen lo (r ∷ rs) s e hi up p h = (p.0, p.1, IsPlaced-widen r.end rs s e hi up p.2 h)
