-- ===== src/Registers/Extra.antt =====
-- `ExtraRegisterIdx` of src/registers.rs: the vector, mask and control registers, each a range of the
-- words that they are kept in. A text is the list of its bytes.
use nnd.Base.{
  ℕ, ◌+◌, ◌-◌, ◌*◌, ◌/◌, ◌%◌, ◌^◌, Bool, true, not, ltb, leb, ◌==◌, ◌&&◌, if◌then◌else◌, List, [],
  ◌∷◌, Option, none, some, codes, get_elem?, length, take, drop,
}
use nnd.Registers.{eq_ignore_ascii_case}

pub record ExtraRegisterIdx : Type 0 where
  pub start : ℕ
  pub len : ℕ

-- What looking for a register gives: `missing` is the `None` of the code, `panicked` is a failed
-- assertion.
pub data Lookup : Type 0 where
  found : ExtraRegisterIdx → Lookup
  missing panicked : Lookup

-- A register with an assertion in front of it.
abbrev pub asserted : Option ExtraRegisterIdx → Lookup
asserted none = panicked
asserted (some r) = found r

abbrev pub zmm_stride : ℕ
zmm_stride = 8

abbrev pub zmm_count : ℕ
zmm_count = 32

abbrev pub opmask_start : ℕ
opmask_start = 256

abbrev pub opmask_count : ℕ
opmask_count = 8

abbrev pub mxcsr_idx : ℕ
mxcsr_idx = 264

abbrev pub scalar_count : ℕ
scalar_count = 265

-- `zmm`, `ymm` and `xmm`, which differ in their length. A failed assertion is `none`.
unfoldable pub vector : ℕ → ℕ → Option ExtraRegisterIdx
vector n len = if ltb n zmm_count then some (record { start = zmm_stride * n; len = len }) else none

abbrev pub opmask : ExtraRegisterIdx
opmask = record { start = opmask_start; len = opmask_count }

-- A failed assertion is `none`.
unfoldable pub opmask_element : ℕ → Option ExtraRegisterIdx
opmask_element n =
    if ltb n opmask_count then some (record { start = opmask_start + n; len = 1 }) else none

abbrev pub mxcsr : ExtraRegisterIdx
mxcsr = record { start = mxcsr_idx; len = 1 }

-- A panic is `none`.
unfoldable pub mask_idx : ExtraRegisterIdx → Option ℕ
mask_idx r =
    if ltb r.start opmask_start
    then some 0
    else if ltb r.start mxcsr_idx
    then some 1
    else if r.start == mxcsr_idx
    then some 2
    else none

unfoldable pub extra_register_names_mm : List (List (List ℕ))
extra_register_names_mm =
    (codes "xmm0"
      ∷ codes "xmm1"
      ∷ codes "xmm2"
      ∷ codes "xmm3"
      ∷ codes "xmm4"
      ∷ codes "xmm5"
      ∷ codes "xmm6"
      ∷ codes "xmm7"
      ∷ codes "xmm8"
      ∷ codes "xmm9"
      ∷ codes "xmm10"
      ∷ codes "xmm11"
      ∷ codes "xmm12"
      ∷ codes "xmm13"
      ∷ codes "xmm14"
      ∷ codes "xmm15"
      ∷ codes "xmm16"
      ∷ codes "xmm17"
      ∷ codes "xmm18"
      ∷ codes "xmm19"
      ∷ codes "xmm20"
      ∷ codes "xmm21"
      ∷ codes "xmm22"
      ∷ codes "xmm23"
      ∷ codes "xmm24"
      ∷ codes "xmm25"
      ∷ codes "xmm26"
      ∷ codes "xmm27"
      ∷ codes "xmm28"
      ∷ codes "xmm29"
      ∷ codes "xmm30"
      ∷ codes "xmm31"
      ∷ [])
    ∷ (codes "ymm0"
        ∷ codes "ymm1"
        ∷ codes "ymm2"
        ∷ codes "ymm3"
        ∷ codes "ymm4"
        ∷ codes "ymm5"
        ∷ codes "ymm6"
        ∷ codes "ymm7"
        ∷ codes "ymm8"
        ∷ codes "ymm9"
        ∷ codes "ymm10"
        ∷ codes "ymm11"
        ∷ codes "ymm12"
        ∷ codes "ymm13"
        ∷ codes "ymm14"
        ∷ codes "ymm15"
        ∷ codes "ymm16"
        ∷ codes "ymm17"
        ∷ codes "ymm18"
        ∷ codes "ymm19"
        ∷ codes "ymm20"
        ∷ codes "ymm21"
        ∷ codes "ymm22"
        ∷ codes "ymm23"
        ∷ codes "ymm24"
        ∷ codes "ymm25"
        ∷ codes "ymm26"
        ∷ codes "ymm27"
        ∷ codes "ymm28"
        ∷ codes "ymm29"
        ∷ codes "ymm30"
        ∷ codes "ymm31"
        ∷ [])
    ∷ (codes "zmm0"
        ∷ codes "zmm1"
        ∷ codes "zmm2"
        ∷ codes "zmm3"
        ∷ codes "zmm4"
        ∷ codes "zmm5"
        ∷ codes "zmm6"
        ∷ codes "zmm7"
        ∷ codes "zmm8"
        ∷ codes "zmm9"
        ∷ codes "zmm10"
        ∷ codes "zmm11"
        ∷ codes "zmm12"
        ∷ codes "zmm13"
        ∷ codes "zmm14"
        ∷ codes "zmm15"
        ∷ codes "zmm16"
        ∷ codes "zmm17"
        ∷ codes "zmm18"
        ∷ codes "zmm19"
        ∷ codes "zmm20"
        ∷ codes "zmm21"
        ∷ codes "zmm22"
        ∷ codes "zmm23"
        ∷ codes "zmm24"
        ∷ codes "zmm25"
        ∷ codes "zmm26"
        ∷ codes "zmm27"
        ∷ codes "zmm28"
        ∷ codes "zmm29"
        ∷ codes "zmm30"
        ∷ codes "zmm31"
        ∷ [])
    ∷ []

unfoldable pub extra_register_names_opmask : List (List ℕ)
extra_register_names_opmask =
    codes "opmask0"
    ∷ codes "opmask1"
    ∷ codes "opmask2"
    ∷ codes "opmask3"
    ∷ codes "opmask4"
    ∷ codes "opmask5"
    ∷ codes "opmask6"
    ∷ codes "opmask7"
    ∷ []

-- The row of the table for a length.
unfoldable pub length_row : ℕ → Option ℕ
length_row len =
    if len == 2 then some 0 else if len == 4 then some 1 else if len == 8 then some 2 else none

abbrev pub then_option : {A B : Type 0} → Option A → (A → Option B) → Option B
then_option none k = none
then_option (some a) k = k a

-- A failed assertion and a panic are `none`.
unfoldable pub name : ExtraRegisterIdx → Option (List ℕ)
unfolding length_row extra_register_names_mm extra_register_names_opmask
name r =
    if ltb r.start opmask_start
    then (if r.start % zmm_stride == 0
        then then_option (length_row r.len) (λ j.
          then_option (get_elem? extra_register_names_mm j)
            (λ names. get_elem? names (r.start / zmm_stride)))
        else none)
    else if ltb r.start mxcsr_idx
    then (if r.len == 8
        then some (codes "opmask")
        else if r.len == 1
        then get_elem? extra_register_names_opmask (r.start - opmask_start)
        else none)
    else if r.start == mxcsr_idx
    then some (codes "mxcsr")
    else none

-- `parse::<usize>` of the standard library: digits, behind a plus sign or not, without overflow.
unfoldable pub usize_from : ℕ → List ℕ → Option ℕ
usize_from val [] = some val
usize_from val (c ∷ cs) =
    let next = val * 10 + (c - b'0') in
    let more = usize_from next cs in
    if leb b'0' c && leb c b'9' && ltb next (2 ^ 64) then more else none

unfoldable pub unsigned_digits : List ℕ → Option ℕ
unfolding usize_from
unsigned_digits [] = none
unsigned_digits (c ∷ cs) = usize_from 0 (c ∷ cs)

unfoldable pub parse_usize : List ℕ → Option ℕ
unfolding unsigned_digits
parse_usize [] = none
parse_usize (c ∷ cs) = if c == b'+' then unsigned_digits cs else unsigned_digits (c ∷ cs)

unfoldable pub is_ascii : List ℕ → Bool
is_ascii [] = true
is_ascii (c ∷ cs) = ltb c 128 && is_ascii cs

-- A number in the tail of a name; `None` where it is none.
unfoldable pub with_number : List ℕ → (ℕ → Lookup) → Lookup
unfolding parse_usize
with_number s k = elim (parse_usize s) [ none ↦ missing | some n ↦ k n ]

-- Behind `opmask`.
unfoldable pub parse_opmask : List ℕ → Lookup
unfolding opmask_element with_number
parse_opmask [] = found opmask
parse_opmask (c ∷ cs) =
    with_number (c ∷ cs) (λ n. if ltb n opmask_count then asserted (opmask_element n) else missing)

-- The length that a letter stands for.
unfoldable pub letter_len : ℕ → Option ℕ
letter_len c =
    if c == b'x'
    then some 2
    else if c == b'X'
    then some 2
    else if c == b'y'
    then some 4
    else if c == b'Y'
    then some 4
    else if c == b'z'
    then some 8
    else if c == b'Z'
    then some 8
    else none

-- `zmm(n)` with its length set.
unfoldable pub zmm_of_len : ℕ → ℕ → Lookup
unfolding vector
zmm_of_len n len = elim (vector n 8) [ none ↦ panicked | some r ↦ found (record r { len = len }) ]

unfoldable pub parse_vector : List ℕ → Lookup
unfolding letter_len with_number zmm_of_len
parse_vector (c ∷ d ∷ e ∷ f ∷ cs) =
    if eq_ignore_ascii_case (d ∷ e ∷ []) (codes "mm")
    then (elim (letter_len c) [
      | none ↦ missing
      | some len ↦ with_number (f ∷ cs) (λ n. if leb zmm_count n then missing else zmm_of_len n len)
    ])
    else missing
parse_vector _ = missing

unfoldable pub parse_ignore_case : List ℕ → Lookup
unfolding is_ascii parse_opmask parse_vector
parse_ignore_case s =
    if not (is_ascii s)
    then missing
    else if eq_ignore_ascii_case s (codes "mxcsr")
    then found mxcsr
    else if leb 6 (length s) && eq_ignore_ascii_case (take 6 s) (codes "opmask")
    then parse_opmask (drop 6 s)
    else parse_vector s
