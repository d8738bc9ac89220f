-- ===== src/RangeIndex.antt =====
-- src/range_index.rs: an index of address ranges, sorted by start and value, where each entry also
-- has the largest end among the entries up to it. The warnings that the code prints are left out.
pub mod Sort
pub mod Fill
pub mod Find
use nnd.Base.{
  ℕ, zero, suc, ◌+◌, ◌-◌, ◌≡◌, Bool, true, false, ltb, leb, ◌==◌, ◌&&◌, ◌||◌, if◌then◌else◌, List,
  [], ◌∷◌, ◌++◌, Option, none, some, ◌>>=◌, max, length, drop, get_elem?,
}

pub record RangeIndexEntry {ℓ} (T : Type ℓ) : Type ℓ where
  pub start : ℕ
  pub end : ℕ
  pub max_end : ℕ
  pub value : T

-- The half-open range of addresses that a caller of `find_ranges` gives.
pub record Range : Type 0 where
  pub start : ℕ
  pub end : ℕ

-- The trait `Ord` of the values, with the laws that its documentation asks for.
pub record Ord {ℓ} (T : Type ℓ) : Type ℓ where
  pub le : T → T → Bool
  pub total : (a b : T) → le a b ≡ false → le b a ≡ true
  pub trans : (a b c : T) → le a b ≡ true → le b c ≡ true → le a c ≡ true

-- Where the loop for one range ends: the index, the steps and the entries found, and whether the
-- limit of steps ended the call.
pub record Scan {ℓ} (T : Type ℓ) : Type ℓ where
  pub idx : ℕ
  pub steps : ℕ
  pub res : List (RangeIndexEntry T)
  pub over_limit : Bool

module _ {ℓ} {T : Type ℓ} where
  -- The order of the keys `(start, value)`.
  unfoldable pub key_le : Ord T → RangeIndexEntry T → RangeIndexEntry T → Bool
  key_le o a b = ltb a.start b.start || (a.start == b.start && o.le a.value b.value)

  -- `sort_unstable_by_key`, as an insertion sort.
  unfoldable pub insert_by_key :
      Ord T → RangeIndexEntry T → List (RangeIndexEntry T) → List (RangeIndexEntry T)
  unfolding key_le
  insert_by_key o r [] = r ∷ []
  insert_by_key o r (s ∷ rest) =
      let later = s ∷ insert_by_key o r rest in if key_le o r s then r ∷ s ∷ rest else later

  unfoldable pub sort_by_key : Ord T → List (RangeIndexEntry T) → List (RangeIndexEntry T)
  unfolding insert_by_key
  sort_by_key o [] = []
  sort_by_key o (r ∷ rest) = insert_by_key o r (sort_by_key o rest)

  -- The loop of `new` behind the sort, at the entry `i`: `max_end` is kept as long as the entry
  -- `max_idx` that it comes from is at most 100000 entries behind.
  unfoldable pub fill_max_end : ℕ → ℕ → ℕ → List (RangeIndexEntry T) → List (RangeIndexEntry T)
  fill_max_end i max_end max_idx [] = []
  fill_max_end i max_end max_idx (r ∷ rest) =
      let own = record r { max_end = r.end } ∷ fill_max_end (i + 1) r.end i rest in
      let kept = record r { max_end = max_end } ∷ fill_max_end (i + 1) max_end max_idx rest in
      if ltb 100000 (i - max_idx) then own else if leb max_end r.end then own else kept

  unfoldable pub new : Ord T → List (RangeIndexEntry T) → List (RangeIndexEntry T)
  new o ranges = fill_max_end 0 0 0 (sort_by_key o ranges)

  -- `partition_point`: the number of entries before the first that fails the test.
  unfoldable pub partition_point : (RangeIndexEntry T → Bool) → List (RangeIndexEntry T) → ℕ
  partition_point test [] = 0
  partition_point test (r ∷ rest) =
      let more = suc (partition_point test rest) in if test r then more else 0

  unfoldable pub upper_bound : List (RangeIndexEntry T) → ℕ → ℕ
  upper_bound ranges addr = partition_point (λ r. leb r.start addr) ranges

  -- The loop of `find`, from the index on which it goes back. The outer `none` is the panic of an
  -- index out of range.
  unfoldable pub find_back : List (RangeIndexEntry T) → ℕ → ℕ → Option (Option (RangeIndexEntry T))
  find_back ranges addr zero = some none
  find_back ranges addr (suc idx) =
      let earlier = find_back ranges addr idx in
      get_elem? ranges idx >>= λ r.
      if ltb addr r.max_end then (if ltb addr r.end then some (some r) else earlier) else some none

  unfoldable pub find : List (RangeIndexEntry T) → ℕ → Option (Option (RangeIndexEntry T))
  find ranges addr = find_back ranges addr (upper_bound ranges addr)

  -- The `while` loop of `find_ranges` for one range, over the entries from `idx` on.
  unfoldable pub scan_range :
      Range → ℕ → ℕ → List (RangeIndexEntry T) → List (RangeIndexEntry T) → Scan T
  scan_range q idx steps res [] = record { idx = idx; steps = steps; res = res; over_limit = false }
  scan_range q idx steps res (r ∷ rest) =
      let more =
        scan_range q (idx + 1) (steps + 1) (if ltb q.start r.end then res ++ r ∷ [] else res)
          rest in
      if ltb r.start q.end
      then (if ltb 100000 (steps + 1)
          then record { idx = idx; steps = steps + 1; res = res; over_limit = true }
          else more)
      else record { idx = idx; steps = steps; res = res; over_limit = false }

  unfoldable pub scan_ranges :
      List (RangeIndexEntry T)
      → ℕ
      → ℕ
      → List (RangeIndexEntry T)
      → List Range
      → List (RangeIndexEntry T)
  unfolding scan_range partition_point
  scan_ranges ranges idx steps res [] = res
  scan_ranges ranges idx steps res (q ∷ qs) =
      let from = max idx (partition_point (λ r. leb r.max_end q.start) ranges) in
      let s = scan_range q from steps res (drop from ranges) in
      let more = scan_ranges ranges s.idx s.steps s.res qs in if s.over_limit then s.res else more

-- The assertion of `find_ranges` on neighbouring ranges.
unfoldable pub are_apart : List Range → Bool
are_apart [] = true
are_apart (q ∷ []) = true
are_apart (q ∷ r ∷ qs) = ltb q.end r.start && are_apart (r ∷ qs)

-- `none` is the panic of the assertion.
unfoldable pub find_ranges {ℓ} :
    {T : Type ℓ} → List (RangeIndexEntry T) → List Range → Option (List (RangeIndexEntry T))
unfolding are_apart scan_ranges
find_ranges ranges qs = if are_apart qs then some (scan_ranges ranges 0 0 [] qs) else none
