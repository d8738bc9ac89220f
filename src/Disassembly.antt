-- ===== src/Disassembly.antt =====
-- src/disassembly.rs: the ranges of addresses that are disassembled, brought into order, and the
-- way from an address to a line of the listing. Writing the listing itself is left out.
pub mod Merge
pub mod Ranges
pub mod Lines
use nnd.Base.{
  ℕ, zero, suc, ◌+◌, ◌-◌, ◌≡◌, Bool, true, false, ltb, leb, ◌==◌, ◌&&◌, if◌then◌else◌, List, [],
  ◌∷◌, Option, none, some, ◌>>=◌, length, take, set, get_elem?,
}
use nnd.RangeIndex.{Range}

pub data DisassemblyLineKind : Type 0 where
  intro : DisassemblyLineKind
  inlined_call_line_number : DisassemblyLineKind
  inlined_function_name : DisassemblyLineKind
  leaf_line_number : DisassemblyLineKind
  instruction : DisassemblyLineKind
  separator : DisassemblyLineKind
  error : DisassemblyLineKind

unfoldable pub is_instruction : DisassemblyLineKind → Bool
is_instruction instruction = true
is_instruction _ = false

-- What the search for an address reads of a line.
pub record DisassemblyLineInfo : Type 0 where
  pub kind : DisassemblyLineKind
  pub static_addr : ℕ

abbrev pub max_x86_instruction_bytes : ℕ
max_x86_instruction_bytes = 15

-- `partition_point` with the test `l.static_addr <= static_addr`.
unfoldable pub lines_up_to : List DisassemblyLineInfo → ℕ → ℕ
lines_up_to [] static_addr = 0
lines_up_to (l ∷ rest) static_addr =
    let more = suc (lines_up_to rest static_addr) in
    if leb l.static_addr static_addr then more else 0

-- The outer `none` is the panic of an index out of range.
unfoldable pub static_addr_to_line : List DisassemblyLineInfo → ℕ → Option (Option ℕ)
unfolding lines_up_to is_instruction
static_addr_to_line lines static_addr =
    let idx = lines_up_to lines static_addr in
    if idx == 0
    then some none
    else get_elem? lines (idx - 1) >>= λ l.
        some
          (if (l.static_addr == static_addr) && is_instruction l.kind then some (idx - 1) else none)

-- The second component tells whether the address is inside of the instruction of the line.
unfoldable pub static_pseudo_addr_to_line : List DisassemblyLineInfo → ℕ → Option (ℕ × Bool)
unfolding lines_up_to is_instruction
static_pseudo_addr_to_line lines static_pseudo_addr =
    let idx = lines_up_to lines static_pseudo_addr in
    if idx == 0
    then some (0, false)
    else get_elem? lines (idx - 1) >>= λ l. some (
        if is_instruction l.kind
          && ltb static_pseudo_addr (l.static_addr + max_x86_instruction_bytes)
        then (idx - 1, true)
        else (idx - 1, false))

-- `sort_unstable_by_key` with the key `r.start`, as an insertion sort.
unfoldable pub insert_by_start : Range → List Range → List Range
insert_by_start r [] = r ∷ []
insert_by_start r (s ∷ rest) =
    let later = s ∷ insert_by_start r rest in if leb r.start s.start then r ∷ s ∷ rest else later

unfoldable pub sort_by_start : List Range → List Range
unfolding insert_by_start
sort_by_start [] = []
sort_by_start (r ∷ rest) = insert_by_start r (sort_by_start rest)

-- The variables that the loop of `clean_up_ranges` changes.
pub record CleanUp : Type 0 where
  pub ranges : List Range
  pub j : ℕ

-- One round of the loop, at `r = ranges[i]` and `last = ranges[j]`.
unfoldable pub clean_up_step : CleanUp → (r last : Range) → CleanUp
clean_up_step s r last =
    if ltb last.end r.start
    then record { ranges = set s.ranges (s.j + 1) r; j = s.j + 1 }
    else if leb r.end last.end
    then s
    else record s { ranges = set s.ranges s.j (record last { end = r.end }) }

-- The rounds `i ..`, of which `left` are to come. `none` is the panic of an index out of range.
unfoldable pub clean_up_loop : (left i : ℕ) → CleanUp → Option CleanUp
unfolding clean_up_step
clean_up_loop zero i s = some s
clean_up_loop (suc left) i s = get_elem? s.ranges i >>= λ r.
    get_elem? s.ranges s.j >>= λ last. clean_up_loop left (suc i) (clean_up_step s r last)

-- The final `truncate`.
unfoldable pub truncated : CleanUp → List Range
truncated s = take (s.j + 1) s.ranges

unfoldable pub clean_up_ranges : List Range → Option (List Range)
unfolding clean_up_loop sort_by_start truncated
clean_up_ranges [] = some []
clean_up_ranges (r ∷ rest) =
    let sorted = sort_by_start (r ∷ rest) in
    clean_up_loop (length sorted - 1) 1 (record { ranges = sorted; j = 0 }) >>= λ s.
    some (truncated s)
