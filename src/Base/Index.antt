-- ===== src/Base/Index.antt =====
-- Reading, writing and appending by index, and statements on every element.
use Prim.Native.Nat.{ℕ, zero, suc, ◌<◌}
use mathlib.Core.Path.{◌≡◌, refl, subst, ap}
use mathlib.Core.List.{List, [], ◌∷◌, ◌++◌}
use mathlib.Core.Option.{some, some-injective}
use native.Mathlib.Omega.{arith}
use nnd.Base.Tests.{◌==◌, if◌then◌else◌}
use nnd.Base.Lists.{length, get_elem?, set, take, drop, All}

module _ {ℓ} {A : Type ℓ} where
  -- A write to a place that is there, in one equation.
  pub get_elem?-set :
      (xs : List A) (i : ℕ) (v : A) (j : ℕ) {x : A}
      → get_elem? xs i ≡ some x
      → get_elem? (set xs i v) j ≡ (if j == i then some v else get_elem? xs j)
  get_elem?-set [] i v j h = cc
  get_elem?-set (x ∷ xs) zero v zero h = refl
  get_elem?-set (x ∷ xs) zero v (suc j) h = ground arith
  get_elem?-set (x ∷ xs) (suc i) v zero h = ground arith
  get_elem?-set (x ∷ xs) (suc i) v (suc j) h = ground (arith, get_elem?-set xs i v j h)

  pub get_elem?-push :
      (xs : List A) (v : A) (j : ℕ)
      → get_elem? (xs ++ v ∷ []) j ≡ (if j == length xs then some v else get_elem? xs j)
  get_elem?-push [] v zero = refl
  get_elem?-push [] v (suc j) = ground arith
  get_elem?-push (x ∷ xs) v zero = ground arith
  get_elem?-push (x ∷ xs) v (suc j) = ground (arith, get_elem?-push xs v j)

  pub get_elem?-lt : (xs : List A) (i : ℕ) {x : A} → get_elem? xs i ≡ some x → i < length xs
  get_elem?-lt [] i h = cc
  get_elem?-lt (x ∷ xs) zero h = omega arith
  get_elem?-lt (x ∷ xs) (suc i) h = omega (arith, get_elem?-lt xs i h)

module _ {ℓ} {A : Type ℓ} (P : A → Type 0) where
  pub All-get : (xs : List A) (i : ℕ) {x : A} → All P xs → get_elem? xs i ≡ some x → P x
  All-get [] i a h = cc
  All-get (y ∷ xs) zero a h = subst P (some-injective _ _ h) a.0
  All-get (x ∷ xs) (suc i) a h = All-get xs i a.1 h

  pub All-set : (xs : List A) (i : ℕ) (v : A) → All P xs → P v → All P (set xs i v)
  All-set [] i v a p = tt
  All-set (x ∷ xs) zero v a p = (p, a.1)
  All-set (x ∷ xs) (suc i) v a p = (a.0, All-set xs i v a.1 p)

module _ {ℓ} {A : Type ℓ} where
  pub All-of-get :
      (P : A → Type 0) (xs : List A) → ((i : ℕ) (x : A) → get_elem? xs i ≡ some x → P x) → All P xs
  All-of-get P [] h = tt
  All-of-get P (x ∷ xs) h = (h 0 x refl, All-of-get P xs (λ i. h (suc i)))

  pub get_elem?_found : (xs : List A) (i : ℕ) → i < length xs → (x : A) × (get_elem? xs i ≡ some x)
  get_elem?_found [] i h = absurd (omega arith)
  get_elem?_found (x ∷ xs) zero h = (x, refl)
  get_elem?_found (x ∷ xs) (suc i) h = get_elem?_found xs i (omega arith)

module _ {ℓ} {A : Type ℓ} where
  pub take-get :
      (xs : List A) (j : ℕ) {x : A}
      → get_elem? xs j ≡ some x
      → take (suc j) xs ≡ take j xs ++ x ∷ []
  take-get [] j h = cc
  take-get (y ∷ ys) zero h = ap (λ z. z ∷ []) (some-injective _ _ h)
  take-get (y ∷ ys) (suc j) h = ap (◌∷◌ y) (take-get ys j h)

  pub take-set : (xs : List A) (j : ℕ) (v : A) → take j (set xs j v) ≡ take j xs
  take-set [] j v = refl
  take-set (y ∷ ys) zero v = refl
  take-set (y ∷ ys) (suc j) v = ap (◌∷◌ y) (take-set ys j v)

  pub drop-set : (xs : List A) (j i : ℕ) (v : A) → j < i → drop i (set xs j v) ≡ drop i xs
  drop-set [] j i v h = refl
  drop-set (y ∷ ys) j zero v h = absurd (omega arith)
  drop-set (y ∷ ys) zero (suc i) v h = refl
  drop-set (y ∷ ys) (suc j) (suc i) v h = drop-set ys j i v (omega arith)

  pub drop-head :
      (xs : List A) (i : ℕ) {x : A} {rest : List A}
      → drop i xs ≡ x ∷ rest
      → (get_elem? xs i ≡ some x) × (drop (suc i) xs ≡ rest)
  drop-head [] zero h = absurd cc
  drop-head [] (suc i) h = absurd cc
  drop-head (y ∷ ys) zero h = (cc, cc)
  drop-head (y ∷ ys) (suc i) h = drop-head ys i h
