-- ===== src/Tests/Disassembly.antt =====
-- Runs on overlapping ranges and on a short listing.
use nnd.Base.{ℕ, ◌≡◌, refl, true, [], ◌∷◌, none, some, arith, List, ◌<◌, ◌↔◌, get_elem?, zero, suc}
use nnd.RangeIndex.{Range}
use nnd.Disassembly.{
  DisassemblyLineInfo, DisassemblyLineKind, intro, instruction, clean_up_ranges,
  static_addr_to_line, static_pseudo_addr_to_line, is_instruction,
}
use nnd.Disassembly.Ranges.{Cleaned, clean_up_ranges-Cleaned}
use nnd.Disassembly.Lines.{IsLast, static_addr_to_line-IsLast, static_pseudo_addr_to_line_inside}

abbrev range : ℕ → ℕ → Range
range a b = record { start = a; end = b }

abbrev shards : List Range
shards = range 60 70 ∷ range 10 20 ∷ range 18 30 ∷ range 12 14 ∷ range 30 40 ∷ []

shards_joined : clean_up_ranges shards ≡ some (range 10 40 ∷ range 60 70 ∷ [])
unfolding clean_up_ranges
shards_joined = refl

abbrev line : DisassemblyLineKind → ℕ → DisassemblyLineInfo
line kind a = record { kind = kind; static_addr = a }

abbrev listing : List DisassemblyLineInfo
listing = line intro 0 ∷ line intro 100 ∷ line instruction 100 ∷ line instruction 104 ∷ []

found_line : static_addr_to_line listing 100 ≡ some (some 2)
unfolding static_addr_to_line
found_line = refl

missed_line : static_addr_to_line listing 102 ≡ some none
unfolding static_addr_to_line
missed_line = refl

clean_up_ranges-Cleaned_example :
    (clean : List Range) × (clean_up_ranges shards ≡ some clean) × Cleaned shards clean
clean_up_ranges-Cleaned_example = clean_up_ranges-Cleaned shards

later_line :
    (j : ℕ) (m : DisassemblyLineInfo) → 2 < j → get_elem? listing j ≡ some m → 103 < m.static_addr
later_line zero m h g = absurd (omega arith)
later_line (suc zero) m h g = absurd (omega arith)
later_line (suc (suc zero)) m h g = absurd (omega arith)
later_line (suc (suc (suc zero))) m h g = ground (arith, g)
later_line (suc (suc (suc (suc j)))) m h g = absurd cc

static_addr_to_line-IsLast_example : (static_addr_to_line listing 100 ≡ some (some 2)) ↔ (
    (l : DisassemblyLineInfo) × IsLast listing 100 2 l
    × (l.static_addr ≡ 100)
    × (is_instruction l.kind ≡ true))
static_addr_to_line-IsLast_example = static_addr_to_line-IsLast listing 100 2 (omega arith)

static_pseudo_addr_to_line_inside_example : static_pseudo_addr_to_line listing 103 ≡ some (2, true)
unfolding is_instruction
static_pseudo_addr_to_line_inside_example =
    static_pseudo_addr_to_line_inside listing 103 2 (line instruction 100) (omega arith)
      (record { here = refl; up_to = omega arith; later = later_line }) refl (omega arith)
