-- ===== src/Interp/Keeps.antt =====
-- Steps of src/interp.rs that end without a panic and keep a statement on the state, with a rule for
-- each way to put steps together.
use nnd.Base.{Bool, true, false, if◌then◌else◌, Option, none, some}
use nnd.Interp.Result.{Result, M, then_in, ◌>>=◌, pure, fail, SyntaxError, Ensures, holds, rejected}

-- From a state with `I` the step ends, and with a value the state has `I`.
unfoldable pub Keeps : {S A : Type 0} → (S → Type 0) → M S A → Type 0
Keeps {S} I m = (s : S) → I s → Ensures (λ r. I r.1) (m s)

pub Ensures-then_in :
    {A B : Type 0} (P : A → Type 0) (Q : B → Type 0) (r : Result A) (f : A → Result B)
    → Ensures P r
    → ((a : A) → P a → Ensures Q (f a))
    → Ensures Q (then_in r f)
Ensures-then_in P Q _ f (holds {a} h) k = k a h
Ensures-then_in P Q _ f rejected k = rejected

pub Ensures-mono :
    {A : Type 0} (P Q : A → Type 0) (r : Result A)
    → Ensures P r
    → ((a : A) → P a → Q a)
    → Ensures Q r
Ensures-mono P Q _ (holds {a} h) k = holds (k a h)
Ensures-mono P Q _ rejected k = rejected

module _ {S : Type 0} (I : S → Type 0) where
  pub pure-Keeps : {A : Type 0} (a : A) → Keeps I (pure a)
  unfolding Keeps
  pure-Keeps a s h = holds h

  pub fail-Keeps : (A : Type 0) (e : SyntaxError) → Keeps {A = A} I (fail e)
  unfolding Keeps
  fail-Keeps A e s h = rejected

  pub bind-Keeps :
      {A B : Type 0} (m : M S A) (f : A → M S B)
      → Keeps I m
      → ((a : A) → Keeps I (f a))
      → Keeps I (m >>= f)
  unfolding Keeps
  bind-Keeps {A} {B} m f h k s i = go (m s) (h s i)
    where
      go :
          (r : Result (A × S))
          → Ensures (λ x. I x.1) r
          → Ensures (λ x. I x.1) (then_in r (λ x. f x.0 x.1))
      go _ (holds {a} j) = k a.0 a.1 j
      go _ rejected = rejected

  pub if-Keeps :
      {A : Type 0} (b : Bool) (m n : M S A) → Keeps I m → Keeps I n → Keeps I (if b then m else n)
  if-Keeps true m n h k = h
  if-Keeps false m n h k = k

  pub option-Keeps :
      {A B : Type 0} (o : Option B) (m : M S A) (f : B → M S A)
      → Keeps I m
      → ((b : B) → Keeps I (f b))
      → Keeps I (elim o as (λ _. M S A) [ none ↦ m | some b ↦ f b ])
  option-Keeps none m f h k = h
  option-Keeps (some b) m f h k = k b
