-- ===== src/Pool/Slots.antt =====
-- Lists of slots, the numbers of free ones, and the vacant list, for src/pool.rs.
use nnd.Base.{
  ℕ, zero, suc, ◌+◌, ◌≤◌, ◌≡◌, ◌≢◌, Bool, true, false, if◌then◌else◌, List, [], ◌∷◌, ◌++◌, Option,
  none, some, arith, length, get_elem?, set, All, some-injective,
}
use nnd.Pool.{Slot}

-- No number stands twice.
abbrev pub IsDistinct : List ℕ → Type 0
IsDistinct [] = Unit
IsDistinct (v ∷ vs) = All (λ w. w ≢ v) vs × IsDistinct vs

module _ {ℓ} {T : Type ℓ} where
  abbrev pub is_free : Option T → Bool
  is_free none = true
  is_free (some x) = false

  unfoldable pub free_count : List (Slot T) → ℕ
  free_count [] = 0
  free_count (s ∷ rest) = (if is_free s.val then 1 else 0) + free_count rest

  -- The slot of this number is there and holds nothing.
  pub record IsFree (slots : List (Slot T)) (w : ℕ) : Type ℓ where
    pub there : Slot T
    pub found : get_elem? slots w ≡ some there
    pub empty : there.val ≡ none

  pub free_count-set :
      (xs : List (Slot T)) (i : ℕ) (v : Slot T) (s : Slot T)
      → get_elem? xs i ≡ some s
      → free_count (set xs i v) + (if is_free s.val then 1 else 0)
        ≡ free_count xs + (if is_free v.val then 1 else 0)
  unfolding free_count
  free_count-set [] i v s h = cc
  free_count-set (x ∷ xs) zero v s h = let e : x ≡ s = some-injective _ _ h in rw e (omega arith)
  free_count-set (x ∷ xs) (suc i) v s h = omega (arith, free_count-set xs i v s h)

  pub free_count-push :
      (xs : List (Slot T)) (v : Slot T)
      → free_count (xs ++ v ∷ []) ≡ free_count xs + (if is_free v.val then 1 else 0)
  unfolding free_count
  free_count-push [] v = omega arith
  free_count-push (x ∷ xs) v = omega (arith, free_count-push xs v)

  pub free_count-le-length : (xs : List (Slot T)) → free_count xs ≤ length xs
  unfolding free_count
  free_count-le-length [] = omega arith
  free_count-le-length (x ∷ xs) = ground (arith, free_count-le-length xs)
