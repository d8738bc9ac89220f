-- ===== src/Tests/RangeIndex.antt =====
-- An index of three nested and neighbouring ranges, as of inlined functions.
use nnd.Base.{ℕ, ◌≡◌, refl, leb, true, false, [], ◌∷◌, some, arith, List}
use nnd.RangeIndex.{
  RangeIndexEntry, Ord, new, find, find_back, upper_bound, partition_point, find_ranges,
  sort_by_key, fill_max_end,
}
use nnd.RangeIndex.Find.{Finds, find-new}

leb_total : (a b : ℕ) → leb a b ≡ false → leb b a ≡ true
leb_total a b h = ground arith

leb_trans : (a b c : ℕ) → leb a b ≡ true → leb b c ≡ true → leb a c ≡ true
leb_trans a b c h k = ground arith

abbrev by_number : Ord ℕ
by_number = record { le = leb; total = leb_total; trans = leb_trans }

abbrev entry : ℕ → ℕ → ℕ → RangeIndexEntry ℕ
entry a b v = record { start = a; end = b; max_end = 0; value = v }

abbrev functions : List (RangeIndexEntry ℕ)
functions = entry 20 25 2 ∷ entry 10 40 0 ∷ entry 12 18 1 ∷ []

inner_found :
    find (new by_number functions) 22 ≡ some (some (record (entry 20 25 2) { max_end = 40 }))
unfolding find find_back upper_bound partition_point new sort_by_key fill_max_end
inner_found = refl

outer_found :
    find (new by_number functions) 30 ≡ some (some (record (entry 10 40 0) { max_end = 40 }))
unfolding find find_back upper_bound partition_point new sort_by_key fill_max_end
outer_found = refl

two_found :
    find_ranges
      (new by_number functions)
      (record { start = 17; end = 19 } ∷ record { start = 39; end = 50 } ∷ [])
    ≡ some (record (entry 10 40 0) { max_end = 40 } ∷ record (entry 12 18 1) { max_end = 40 } ∷ [])
unfolding find_ranges new sort_by_key fill_max_end
two_found = refl

find-new_example : Finds by_number 22 functions (find (new by_number functions) 22)
find-new_example = find-new by_number functions 22 (omega arith)
