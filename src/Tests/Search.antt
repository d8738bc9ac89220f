-- ===== src/Tests/Search.antt =====
-- Runs of the fuzzy matcher, among them one where case is ignored.
use nnd.Base.{ℕ, ◌≡◌, refl, false, [], ◌∷◌, none, some, List, codes}
use nnd.RangeIndex.{Range}
use nnd.Search.{fuzzy_match}
use nnd.Search.Says.{Tells}
use nnd.Search.Match.{fuzzy_match-Tells}

abbrev ranges_of : ℕ → ℕ → List Range → List Range
ranges_of a b rest = record { start = a; end = b } ∷ rest

same_text :
    fuzzy_match (codes "Main.rs") (codes "main.rs") false
    ≡ some (record { score = some 0; match_ranges = [] })
unfolding fuzzy_match
same_text = refl

spread_text :
    fuzzy_match (codes "read_memory") (codes "rmem") false
    ≡ some (record {
      score = some 0x400000020000000b;
      match_ranges = ranges_of 0 1 (ranges_of 5 8 []);
    })
unfolding fuzzy_match
spread_text = refl

-- What a failed search leaves in `match_ranges`.
left_over :
    fuzzy_match (codes "read") (codes "rx") false
    ≡ some (record { score = none; match_ranges = ranges_of 0 1 [] })
unfolding fuzzy_match
left_over = refl

fuzzy_match-Tells_example :
    Tells false
      (codes "read_memory")
      (codes "rmem")
      (fuzzy_match (codes "read_memory") (codes "rmem") false)
fuzzy_match-Tells_example = fuzzy_match-Tells (codes "read_memory") (codes "rmem") false
