-- ===== src/Registers/ExtraNames.antt =====
-- The names of the extra registers of src/registers.rs, and where the parsed ones lie.
use nnd.Base.{
  ℕ, ◌+◌, ◌*◌, ◌≤◌, ◌<◌, ◌≡◌, refl, ap, ◌∙◌, Bool, true, false, not, ltb, leb, ◌==◌, ◌&&◌,
  if◌then◌else◌, List, [], ◌∷◌, Option, none, some, arith, ==_iff, all_below, all_below_sound,
  length, take, drop, codes, Bool-cases, inl, inr, ltb→lt, lt→ltb,
}
use nnd.Registers.{eq_ignore_ascii_case}
use nnd.Registers.Extra.{
  ExtraRegisterIdx, Lookup, found, missing, panicked, asserted, with_number, zmm_of_len, zmm_count,
  opmask_count, scalar_count, vector, opmask, opmask_element, mxcsr, name, letter_len, parse_usize,
  parse_opmask, parse_vector, parse_ignore_case, is_ascii,
}

-- The registers that there are.
pub data IsRegister : ExtraRegisterIdx → Type 0 where
  is_xmm : (n : ℕ) → n < zmm_count → IsRegister (record { start = 8 * n; len = 2 })
  is_ymm : (n : ℕ) → n < zmm_count → IsRegister (record { start = 8 * n; len = 4 })
  is_zmm : (n : ℕ) → n < zmm_count → IsRegister (record { start = 8 * n; len = 8 })
  is_opmask : IsRegister opmask
  is_opmask_element : (n : ℕ) → n < opmask_count → IsRegister (record { start = 256 + n; len = 1 })
  is_mxcsr : IsRegister mxcsr

-- What the name of a register is parsed as.
abbrev pub reparsed : ExtraRegisterIdx → Lookup
reparsed r = elim (name r) [ none ↦ panicked | some s ↦ parse_ignore_case s ]

abbrev same : Lookup → ExtraRegisterIdx → Bool
same (found q) r = (q.start == r.start) && (q.len == r.len)
same _ r = false

and_true : (a b : Bool) → (a && b) ≡ true → (a ≡ true) × (b ≡ true)
and_true true b h = (refl, h)
and_true false b h = cc

same_sound : (o : Lookup) (r : ExtraRegisterIdx) → same o r ≡ true → o ≡ found r
same_sound missing r h = cc
same_sound panicked r h = cc
same_sound (found q) r h =
    let (a, b) = and_true _ _ h in
    ap (λ x. found (record { start = x; len = q.len })) ((==_iff q.start r.start).0 a)
    ∙ ap (λ x. found (record { start = r.start; len = x })) ((==_iff q.len r.len).0 b)

abbrev vector_at : ℕ → ℕ → ExtraRegisterIdx
vector_at len n = record { start = 8 * n; len = len }

abbrev element_at : ℕ → ExtraRegisterIdx
element_at n = record { start = 256 + n; len = 1 }

xmm_table : all_below 32 (λ n. same (reparsed (vector_at 2 n)) (vector_at 2 n)) ≡ true
unfolding all_below name parse_ignore_case eq_ignore_ascii_case
xmm_table = refl

ymm_table : all_below 32 (λ n. same (reparsed (vector_at 4 n)) (vector_at 4 n)) ≡ true
unfolding all_below name parse_ignore_case eq_ignore_ascii_case
ymm_table = refl

zmm_table : all_below 32 (λ n. same (reparsed (vector_at 8 n)) (vector_at 8 n)) ≡ true
unfolding all_below name parse_ignore_case eq_ignore_ascii_case
zmm_table = refl

opmask_table : all_below 8 (λ n. same (reparsed (element_at n)) (element_at n)) ≡ true
unfolding all_below name parse_ignore_case eq_ignore_ascii_case
opmask_table = refl

-- Every register has a name, which is parsed as the register.
reparsed_lem : (r : ExtraRegisterIdx) → IsRegister r → reparsed r ≡ found r
unfolding name parse_ignore_case eq_ignore_ascii_case
reparsed_lem _ (is_xmm n h) =
    same_sound _ _
      (all_below_sound 32 (λ n. same (reparsed (vector_at 2 n)) (vector_at 2 n)) n xmm_table h)
reparsed_lem _ (is_ymm n h) =
    same_sound _ _
      (all_below_sound 32 (λ n. same (reparsed (vector_at 4 n)) (vector_at 4 n)) n ymm_table h)
reparsed_lem _ (is_zmm n h) =
    same_sound _ _
      (all_below_sound 32 (λ n. same (reparsed (vector_at 8 n)) (vector_at 8 n)) n zmm_table h)
reparsed_lem _ is_opmask = refl
reparsed_lem _ (is_opmask_element n h) =
    same_sound _ _
      (all_below_sound 8 (λ n. same (reparsed (element_at n)) (element_at n)) n opmask_table h)
reparsed_lem _ is_mxcsr = refl

-- One of the registers, within the words kept, or the `None` of the code.
abbrev pub Lands : Lookup → Type 0
Lands (found r) = IsRegister r × (r.start + r.len ≤ scalar_count)
Lands missing = Unit
Lands panicked = ⊥

in_range : (r : ExtraRegisterIdx) → IsRegister r → r.start + r.len ≤ scalar_count
in_range _ (is_xmm n h) = omega arith
in_range _ (is_ymm n h) = omega arith
in_range _ (is_zmm n h) = omega arith
in_range _ is_opmask = omega arith
in_range _ (is_opmask_element n h) = omega arith
in_range _ is_mxcsr = omega arith

found-Lands : (r : ExtraRegisterIdx) → IsRegister r → Lands (found r)
found-Lands r h = (h, in_range r h)

if-either : {A : Type 0} (P : A → Type 0) (b : Bool) (x y : A) → P x → P y → P (if b then x else y)
if-either P true x y h k = h
if-either P false x y h k = k

with_number-Lands :
    (s : List ℕ) (k : ℕ → Lookup) → ((n : ℕ) → Lands (k n)) → Lands (with_number s k)
unfolding with_number
with_number-Lands s k h = go (parse_usize s)
  where
    go : (o : Option ℕ) → Lands (elim o [ none ↦ missing | some n ↦ k n ])
    go none = tt
    go (some n) = h n

zmm_of_len_below :
    (n len : ℕ)
    → ltb n zmm_count ≡ true
    → zmm_of_len n len ≡ found (record { start = 8 * n; len = len })
unfolding zmm_of_len vector
zmm_of_len_below n len q = rw (zmm_of_len, vector, q) refl

-- The test in front of the assertion is no weaker than the assertion.
zmm_of_len-Lands :
    (n len : ℕ)
    → (n < zmm_count → IsRegister (record { start = 8 * n; len = len }))
    → Lands (if leb zmm_count n then missing else zmm_of_len n len)
zmm_of_len-Lands n len k = elim (Bool-cases (leb 32 n)) [
  | inl q ↦ rw q tt
  | inr q ↦
      let l : n < 32 = ground arith in
      rw (q, zmm_of_len_below n len (lt→ltb n 32 l)) (found-Lands _ (k l))
]

opmask_element-Lands :
    (n : ℕ) → Lands (if ltb n opmask_count then asserted (opmask_element n) else missing)
unfolding opmask_element
opmask_element-Lands n = elim (Bool-cases (ltb n 8)) [
  | inl q ↦ rw q (found-Lands _ (is_opmask_element n (ltb→lt n 8 q)))
  | inr q ↦ rw q tt
]

letter_len-Lands :
    (c : ℕ) (s : List ℕ)
    → Lands (elim (letter_len c) [
      | none ↦ missing
      | some len ↦ with_number s (λ n. if leb zmm_count n then missing else zmm_of_len n len)
    ])
unfolding letter_len
letter_len-Lands c s =
    let P : Option ℕ → Type 0 = λ l. Lands (elim l [
      | none ↦ missing
      | some len ↦ with_number s (λ n. if leb zmm_count n then missing else zmm_of_len n len)
    ]) in
    let x : P (some 2) = with_number-Lands s _ (λ n. zmm_of_len-Lands n 2 (is_xmm n)) in
    let y : P (some 4) = with_number-Lands s _ (λ n. zmm_of_len-Lands n 4 (is_ymm n)) in
    let z : P (some 8) = with_number-Lands s _ (λ n. zmm_of_len-Lands n 8 (is_zmm n)) in
    if-either P (c == b'x') _ _ x (
      if-either P (c == b'X') _ _ x (
        if-either P (c == b'y') _ _ y (
          if-either P (c == b'Y') _ _ y
            (if-either P (c == b'z') _ _ z (if-either P (c == b'Z') _ _ z tt)))))

parse_vector-Lands : (s : List ℕ) → Lands (parse_vector s)
unfolding parse_vector
parse_vector-Lands (c ∷ d ∷ e ∷ f ∷ cs) =
    if-either Lands (eq_ignore_ascii_case (d ∷ e ∷ []) (codes "mm")) _ _
      (letter_len-Lands c (f ∷ cs)) tt
parse_vector-Lands [] = tt
parse_vector-Lands (c ∷ []) = tt
parse_vector-Lands (c ∷ d ∷ []) = tt
parse_vector-Lands (c ∷ d ∷ e ∷ []) = tt

parse_opmask-Lands : (s : List ℕ) → Lands (parse_opmask s)
unfolding parse_opmask
parse_opmask-Lands [] = found-Lands _ is_opmask
parse_opmask-Lands (c ∷ cs) = with_number-Lands (c ∷ cs) _ opmask_element-Lands

parse_ignore_case-Lands : (s : List ℕ) → Lands (parse_ignore_case s)
unfolding parse_ignore_case
parse_ignore_case-Lands s = if-either Lands (not (is_ascii s)) missing _ tt (
    if-either Lands (eq_ignore_ascii_case s (codes "mxcsr")) (found mxcsr) _
      (found-Lands _ is_mxcsr)
      (if-either Lands (leb 6 (length s) && eq_ignore_ascii_case (take 6 s) (codes "opmask")) _ _
        (parse_opmask-Lands (drop 6 s)) (parse_vector-Lands s)))

-- On any text `parse_ignore_case` ends without a panic, with no register or with one of those that
-- there are, which lies within the words kept for them; and each of those has a name, which is
-- parsed as that register.
pub parse_ignore_case-IsRegister :
    (s : List ℕ) (r : ExtraRegisterIdx)
    → IsRegister r
    → Lands (parse_ignore_case s) × (reparsed r ≡ found r)
parse_ignore_case-IsRegister s r h = (parse_ignore_case-Lands s, reparsed_lem r h)
