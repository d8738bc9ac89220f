-- ===== src/Search.antt =====
-- src/search.rs: whether a name matches what was typed, and with which score. A text is its bytes.
-- `memmem_maybe_case_sensitive` is modelled as its version for processors without AVX2.
pub mod Spelled
pub mod Taken
pub mod Window
pub mod Says
pub mod Match
use nnd.Base.{
  ℕ, zero, suc, ◌+◌, ◌-◌, ◌*◌, ◌%◌, ◌^◌, Bool, true, false, ltb, leb, ◌==◌, ◌&&◌, ◌||◌,
  if◌then◌else◌, List, [], ◌∷◌, ◌++◌, Option, none, some, ◌>>=◌, Bytes, length, take, drop,
  get_elem?, bit_or,
}
use nnd.RangeIndex.{Range}
use nnd.Registers.{to_ascii_lowercase}

abbrev is_within : ℕ → ℕ → ℕ → Bool
is_within lo hi c = leb lo c && leb c hi

unfoldable pub is_ascii_alphanumeric : ℕ → Bool
is_ascii_alphanumeric c = is_within 0x30 0x39 c || is_within 0x41 0x5a c || is_within 0x61 0x7a c

-- A byte of the haystack, as it is compared with the needle.
unfoldable pub folded : Bool → ℕ → ℕ
unfolding to_ascii_lowercase
folded case_sensitive c = if case_sensitive then c else to_ascii_lowercase c

-- The haystack has the needle at its front.
unfoldable pub is_window : Bool → Bytes → Bytes → Bool
unfolding folded
is_window case_sensitive haystack [] = true
is_window case_sensitive [] (n ∷ ns) = false
is_window case_sensitive (c ∷ cs) (n ∷ ns) =
    (folded case_sensitive c == n) && is_window case_sensitive cs ns

-- The windows at `i` and behind, of which `left` are to come.
unfoldable pub first_window : Bool → Bytes → (left i : ℕ) → Bytes → Option ℕ
unfolding is_window
first_window case_sensitive needle zero i haystack = none
first_window case_sensitive needle (suc left) i haystack =
    let later = first_window case_sensitive needle left (suc i) (drop 1 haystack) in
    if is_window case_sensitive haystack needle then some i else later

-- `memmem_maybe_case_sensitive_fallback`
unfoldable pub memmem : (haystack needle : Bytes) → Bool → Option ℕ
unfolding first_window
memmem haystack [] case_sensitive = some 0
memmem haystack (n ∷ ns) case_sensitive =
    let needle = n ∷ ns in
    if ltb (length haystack) (length needle)
    then none
    else first_window case_sensitive needle (length haystack - length needle + 1) 0 haystack

-- The variables of the search for a subsequence; `needle` is what is left from `needle_i` on.
pub record Pieces : Type 0 where
  pub needle : Bytes
  pub match_start : Option ℕ
  pub match_ranges : List Range

unfoldable pub start_or : Option ℕ → ℕ → ℕ
start_or none hay_i = hay_i
start_or (some s) hay_i = s

-- `match_ranges.push(s..hay_i)` where a piece is open.
unfoldable pub close_piece : Option ℕ → ℕ → List Range → List Range
close_piece none hay_i ranges = ranges
close_piece (some s) hay_i ranges = ranges ++ record { start = s; end = hay_i } ∷ []

-- One round of the `while` loop, at the byte `c` of the haystack.
unfoldable pub piece_step : Bool → ℕ → (hay_i : ℕ) → Pieces → Pieces
unfolding folded start_or close_piece
piece_step case_sensitive c hay_i s = elim s.needle [
  | [] ↦ s
  | n ∷ ns ↦
      if folded case_sensitive c == n
      then record s { needle = ns; match_start = some (start_or s.match_start hay_i) }
      else record s {
        match_start = none;
        match_ranges = close_piece s.match_start hay_i s.match_ranges;
      }
]

-- The loop over the haystack from `hay_i` on. It gives the index where it ends.
unfoldable pub piece_loop : Bool → Bytes → (hay_i : ℕ) → Pieces → ℕ × Pieces
unfolding piece_step
piece_loop case_sensitive [] hay_i s = (hay_i, s)
piece_loop case_sensitive (c ∷ cs) hay_i s =
    let rest = piece_loop case_sensitive cs (suc hay_i) (piece_step case_sensitive c hay_i s) in
    elim s.needle [ [] ↦ (hay_i, s) | n ∷ ns ↦ rest ]

-- What `fuzzy_match` leaves: its result and `match_ranges`.
pub record Fuzzy : Type 0 where
  pub score : Option ℕ
  pub match_ranges : List Range

abbrev pub bool_bit : Bool → ℕ
bool_bit true = 1
bool_bit false = 0

-- `(case << 61) | (extra << 32) | len`
unfoldable pub packed : (case_ extra len : ℕ) → ℕ
packed case_ extra len = bit_or (bit_or (case_ * 2 ^ 61 % 2 ^ 64) (extra * 2 ^ 32 % 2 ^ 64)) len

unfoldable pub scored : (case_ extra : ℕ) → Bytes → List Range → Fuzzy
unfolding packed
scored case_ extra haystack ranges = record {
  score = some (packed case_ extra (length haystack));
  match_ranges = ranges;
}

-- The needle is the end of the haystack.
unfoldable pub suffix_match : (haystack needle : Bytes) → Option Fuzzy
unfolding scored is_ascii_alphanumeric
suffix_match haystack needle =
    let len = length haystack in
    if len == length needle
    then some (record { score = some 0; match_ranges = [] })
    else get_elem? haystack (len - length needle - 1) >>= λ c. some (
        scored 1 (bool_bit (is_ascii_alphanumeric c) * 2) haystack
          (record { start = len - length needle; end = len } ∷ []))

-- `i > 0 && haystack[i - 1].is_ascii_alphanumeric()`
unfoldable pub alphanum_before : Bytes → ℕ → Option Bool
unfolding is_ascii_alphanumeric
alphanum_before haystack zero = some false
alphanum_before haystack (suc i) = get_elem? haystack i >>= λ c. some (is_ascii_alphanumeric c)

-- `i < haystack.len() && haystack[i].is_ascii_alphanumeric()`
unfoldable pub alphanum_at : Bytes → ℕ → Bool
unfolding is_ascii_alphanumeric
alphanum_at haystack i = elim (get_elem? haystack i) [
  | some c ↦ is_ascii_alphanumeric c
  | none ↦ false
]

-- The needle is in the haystack at `i`.
unfoldable pub substring_match : (haystack needle : Bytes) → ℕ → Option Fuzzy
unfolding scored alphanum_before alphanum_at
substring_match haystack needle i =
    let stop = i + length needle in
    alphanum_before haystack i >>= λ before. some (
      scored 1 (4 + bool_bit before * 2 + bool_bit (alphanum_at haystack stop)) haystack
        (record { start = i; end = stop } ∷ []))

-- What follows the loop over the haystack.
unfoldable pub pieces_found : Bytes → ℕ × Pieces → Fuzzy
unfolding scored close_piece
pieces_found haystack (hay_i, s) =
    let ranges = close_piece s.match_start hay_i s.match_ranges in
    elim s.needle [
      | [] ↦ scored 2 (length ranges) haystack ranges
      | n ∷ ns ↦ record { score = none; match_ranges = s.match_ranges }
    ]

-- The needle is not in the haystack in one piece.
unfoldable pub subsequence_match : (haystack needle : Bytes) → Bool → Fuzzy
unfolding piece_loop pieces_found
subsequence_match haystack needle case_sensitive = pieces_found haystack (
    piece_loop case_sensitive haystack 0
      (record { needle = needle; match_start = none; match_ranges = [] }))

-- `none` is the panic of an index or a slice out of range.
unfoldable pub fuzzy_match : (haystack needle : Bytes) → Bool → Option Fuzzy
unfolding memmem suffix_match substring_match subsequence_match
fuzzy_match haystack needle case_sensitive =
    let len = length haystack in
    let pieces = subsequence_match haystack needle case_sensitive in
    if ltb len (length needle)
    then some (record { score = none; match_ranges = [] })
    else elim (memmem (drop (len - length needle) haystack) needle case_sensitive) [
      | some i ↦ suffix_match haystack needle
      | none ↦
          if len == 0 then none else elim (memmem (take (len - 1) haystack) needle case_sensitive) [
            | some i ↦ substring_match haystack needle i
            | none ↦ some pieces
          ]
    ]
