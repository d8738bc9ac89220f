-- ===== src/Tests/Layout.antt =====
-- A split of 100 cells with a child of fixed size between two others.
use nnd.Base.{ℕ, ◌≡◌, refl, true, false, List, [], ◌∷◌, arith}
use nnd.Layout.{Child, Place, places, places_from, wall_pos, total_from, add_size}
use nnd.Layout.Tiles.{Tiled, places-Tiled}

abbrev shared : ℕ → Child
shared n = record { is_fixed = false; size = n }

abbrev fixed : ℕ → Child
fixed n = record { is_fixed = true; size = n }

abbrev place : ℕ → ℕ → Place
place a n = record { pos = a; size = n }

abbrev children : List Child
children = shared 1000000 ∷ fixed 20 ∷ shared 500000 ∷ []

three_places : places 100 children ≡ place 0 52 ∷ place 53 20 ∷ place 74 26 ∷ []
unfolding places places_from wall_pos total_from add_size
three_places = refl

places-Tiled_example : Tiled 100 0 children (places 100 children)
places-Tiled_example =
    places-Tiled 100 (shared 1000000) (fixed 20 ∷ shared 500000 ∷ []) (omega arith) (omega arith)
      (omega arith) (omega arith)
