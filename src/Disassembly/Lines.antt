-- ===== src/Disassembly/Lines.antt =====
-- The way from an address to a line in src/disassembly.rs: the line that the binary search finds.
use nnd.Base.{
  ℕ, zero, suc, ◌+◌, ◌-◌, ◌<◌, ◌≤◌, ◌≡◌, ◌↔◌, refl, ap, subst, inl, inr, Bool, true, false, leb,
  ltb, ◌==◌, ◌&&◌, if◌then◌else◌, List, [], ◌∷◌, none, some, length, get_elem?, All, All-get, arith,
  Bool-cases, dec_lt, some-injective, get_elem?_found, leb→le, ==_iff, Option-cases,
}
use nnd.Disassembly.{
  DisassemblyLineInfo, is_instruction, lines_up_to, static_addr_to_line, static_pseudo_addr_to_line,
}

-- The addresses ascend, as the comment on `static_addr` says.
abbrev pub IsSearchable : List DisassemblyLineInfo → Type 0
IsSearchable [] = Unit
IsSearchable (l ∷ rest) = All (λ m. l.static_addr ≤ m.static_addr) rest × IsSearchable rest

-- `l` is the last line up to the address.
pub record IsLast (lines : List DisassemblyLineInfo) (a i : ℕ) (l : DisassemblyLineInfo)
    : Type 0 where
  pub here : get_elem? lines i ≡ some l
  pub up_to : l.static_addr ≤ a
  pub later :
      (j : ℕ) (m : DisassemblyLineInfo) → i < j → get_elem? lines j ≡ some m → a < m.static_addr

lines_up_to-length : (lines : List DisassemblyLineInfo) (a : ℕ) → lines_up_to lines a ≤ length lines
unfolding lines_up_to
lines_up_to-length [] a = omega arith
lines_up_to-length (l ∷ rest) a = ground (arith, lines_up_to-length rest a)

before :
    (lines : List DisassemblyLineInfo) (a j : ℕ) {m : DisassemblyLineInfo}
    → j < lines_up_to lines a
    → get_elem? lines j ≡ some m
    → m.static_addr ≤ a
unfolding lines_up_to
before [] a j h g = absurd (omega arith)
before (l ∷ rest) a zero h g = elim (Bool-cases (leb l.static_addr a)) [
  | inl e ↦ subst (λ z. z.static_addr ≤ a) (some-injective _ _ g) (leb→le l.static_addr a e)
  | inr e ↦ absurd (omega (arith, rw e at h))
]
before (l ∷ rest) a (suc j) h g = elim (Bool-cases (leb l.static_addr a)) [
  | inl e ↦ before rest a j (omega (arith, rw e at h)) g
  | inr e ↦ absurd (omega (arith, rw e at h))
]

above :
    (lines : List DisassemblyLineInfo) (a j : ℕ) {m : DisassemblyLineInfo}
    → IsSearchable lines
    → lines_up_to lines a ≤ j
    → get_elem? lines j ≡ some m
    → a < m.static_addr
unfolding lines_up_to
above [] a j s h g = absurd cc
above (l ∷ rest) a zero s h g = elim (Bool-cases (leb l.static_addr a)) [
  | inl e ↦ absurd (omega (arith, rw e at h))
  | inr e ↦ subst (λ z. a < z.static_addr) (some-injective _ _ g) (ground (arith, e))
]
above (l ∷ rest) a (suc j) s h g = elim (Bool-cases (leb l.static_addr a)) [
  | inl e ↦ above rest a j s.1 (omega (arith, rw e at h)) g
  | inr e ↦
      let k = All-get (λ n. l.static_addr ≤ n.static_addr) rest j s.0 g in ground (arith, e, k)
]

lines_up_to-IsLast :
    (lines : List DisassemblyLineInfo) (a i : ℕ) (l : DisassemblyLineInfo)
    → IsSearchable lines
    → IsLast lines a i l
    → lines_up_to lines a ≡ suc i
lines_up_to-IsLast lines a i l s k = elim (dec_lt i (lines_up_to lines a)) [
  | no n ↦ absurd (omega (arith, above lines a i s (omega arith) k.here, k.up_to))
  | yes y ↦ elim (dec_lt (suc i) (lines_up_to lines a)) [
    | no n ↦ omega arith
    | yes z ↦
        let f = get_elem?_found lines (suc i) (omega (arith, lines_up_to-length lines a)) in
        absurd (omega (arith, before lines a (suc i) z f.1, k.later (suc i) f.0 (omega arith) f.1))
  ]
]

-- What a returned index says.
found :
    (lines : List DisassemblyLineInfo) (a i n : ℕ)
    → lines_up_to lines a ≡ n
    → static_addr_to_line lines a ≡ some (some i)
    → (l : DisassemblyLineInfo) × (get_elem? lines i ≡ some l)
      × (l.static_addr ≡ a)
      × (is_instruction l.kind ≡ true)
      × (n ≡ suc i)
unfolding static_addr_to_line
found lines a i zero e h = let g : some none ≡ some (some i) = rw e at h in absurd cc
found lines a i (suc n) e h =
    let m : suc n - 1 ≡ n = omega arith in
    let z : (suc n == 0) ≡ false = ground arith in
    elim (Option-cases (get_elem? lines n)) [
      | inl g ↦ let k : none ≡ some (some i) = rw (e, m, z, g) at h in absurd cc
      | inr (l, g) ↦
          let k : some (if (l.static_addr == a) && is_instruction l.kind then some n else none)
              ≡ some (some i) =
            rw (e, m, z, g) at h in
          tested l g (l.static_addr == a) (is_instruction l.kind) refl refl k
    ]
  where
    tested :
        (l : DisassemblyLineInfo)
        → get_elem? lines n ≡ some l
        → (b c : Bool) → (l.static_addr == a) ≡ b
        → is_instruction l.kind ≡ c
        → some (if b && c then some n else none) ≡ some (some i)
        → (l : DisassemblyLineInfo) × (get_elem? lines i ≡ some l)
          × (l.static_addr ≡ a)
          × (is_instruction l.kind ≡ true)
          × (suc n ≡ suc i)
    tested l g true true p q k =
        let same : n ≡ i = some-injective _ _ (some-injective _ _ k) in
        (
          l,
          subst (λ z. get_elem? lines z ≡ some l) same g,
          (==_iff l.static_addr a).0 p,
          q,
          ap suc same,
        )
    tested l g true false p q k = absurd cc
    tested l g false c p q k = absurd cc

-- On lines whose addresses ascend, `static_addr_to_line` returns the index `i` exactly when the
-- line `i` is an instruction at the address and every line behind it is at a later address.
pub static_addr_to_line-IsLast :
    (lines : List DisassemblyLineInfo) (a i : ℕ)
    → IsSearchable lines
    → (static_addr_to_line lines a ≡ some (some i)) ↔ (
        (l : DisassemblyLineInfo) × IsLast lines a i l
        × (l.static_addr ≡ a)
        × (is_instruction l.kind ≡ true))
unfolding static_addr_to_line
static_addr_to_line-IsLast lines a i s = (
  λ h.
      let f = found lines a i (lines_up_to lines a) refl h in
      (
        f.0,
        record {
          here = f.1;
          up_to = omega (arith, f.2);
          later = λ j m lt g. above lines a j s (omega (arith, f.4)) g;
        },
        f.2,
        f.3,
      ),
  λ (l, k, e, ins).
      let n = lines_up_to-IsLast lines a i l s k in
      let m : suc i - 1 ≡ i = omega arith in
      let z : (suc i == 0) ≡ false = ground arith in
      let t : (l.static_addr == a) ≡ true = ground arith in rw (n, m, z, k.here, t, ins) refl,
)

-- On lines whose addresses ascend, `static_pseudo_addr_to_line` finds the line `i`, with the mark
-- that it was found, for every address that is less than 15 behind the instruction of the line and
-- before the address of every later line.
pub static_pseudo_addr_to_line_inside :
    (lines : List DisassemblyLineInfo) (a i : ℕ) (l : DisassemblyLineInfo)
    → IsSearchable lines
    → IsLast lines a i l
    → is_instruction l.kind ≡ true
    → a < l.static_addr + 15
    → static_pseudo_addr_to_line lines a ≡ some (i, true)
unfolding static_pseudo_addr_to_line
static_pseudo_addr_to_line_inside lines a i l s k ins lt =
    let n = lines_up_to-IsLast lines a i l s k in
    let t : ltb a (l.static_addr + 15) ≡ true = ground arith in
    let m : suc i - 1 ≡ i = omega arith in
    let z : (suc i == 0) ≡ false = ground arith in rw (n, m, z, k.here, ins, t) refl
