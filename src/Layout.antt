-- ===== src/Layout.antt =====
-- src/layout.rs: where `build_split` puts the walls between the children of a split, and the places
-- that the children get along its axis. The widgets, the dragging of walls and the other axis are
-- left out. Positions are numbers below 2^63, which the casts to `isize`
-- keep: the wall in front of the first child, at -1, is the start 0 of that child.
pub mod Walls
pub mod Tiles
use nnd.Base.{
  ℕ, zero, suc, ◌+◌, ◌-◌, ◌*◌, ◌/◌, ◌%◌, ◌^◌, Bool, true, false, ltb, leb, ◌==◌, ◌||◌,
  if◌then◌else◌, List, [], ◌∷◌, Option, none, some, ◌>>=◌, get_elem?, length,
}

-- A child of a split: whether its size is fixed, and that size or its share of the rest.
pub record Child : Type 0 where
  pub is_fixed : Bool
  pub size : ℕ

-- Cumulative sums: the space before a wall.
pub record CumSum : Type 0 where
  pub fixed : ℕ
  pub flexible : ℕ

abbrev pub word : ℕ
word = 2 ^ 64

-- One round of the loop of `calculate_cumsum`; `inner` tells that a wall is before the child.
unfoldable pub add_size : (inner : Bool) → CumSum → Child → CumSum
add_size inner s c =
    let fixed = if c.is_fixed then (s.fixed + c.size) % word else s.fixed in
    let flexible = if c.is_fixed then s.flexible else (s.flexible + c.size) % word in
    record { fixed = if inner then (fixed + 1) % word else fixed; flexible = flexible }

-- The loop of `calculate_cumsum`, up to the last of the sums.
unfoldable pub total_from : (inner : Bool) → CumSum → List Child → CumSum
total_from inner s [] = s
total_from inner s (c ∷ cs) = total_from true (add_size inner s c) cs

-- `calculate_wall_pos` at a sum, for a split of a size with the total of the sums.
unfoldable pub wall_pos : (size : ℕ) (total : CumSum) → CumSum → ℕ
wall_pos size total s =
    if leb size total.fixed || (s.flexible == 0)
    then s.fixed
    else (s.fixed
        + ((size - total.fixed) * s.flexible % word + total.flexible / 2) % word / total.flexible)
      % word

-- The place of a child: where it begins in the split, and its size.
pub record Place : Type 0 where
  pub pos : ℕ
  pub size : ℕ

-- The children from one on, which begins at `start`; the last one ends with the split.
unfoldable pub places_from :
    (size : ℕ) (total : CumSum) (inner : Bool) (start : ℕ) → CumSum → List Child → List Place
places_from size total inner start s [] = []
places_from size total inner start s (c ∷ []) = record { pos = start; size = size - start } ∷ []
places_from size total inner start s (c ∷ d ∷ cs) =
    let next = add_size inner s c in
    let wall = wall_pos size total next in
    record { pos = start; size = wall - start }
    ∷ places_from size total true (wall + 1) next (d ∷ cs)

-- The places of all children; `build_split` asserts that there is one.
unfoldable pub places : (size : ℕ) → List Child → List Place
places size children =
    let start : CumSum = record { fixed = 0; flexible = 0 } in
    places_from size (total_from false start children) false 0 start children
