-- ===== src/Interp/Result.antt =====
-- The results of the lexer and the parser of src/interp.rs, and the state that they pass on. Every
-- error is one of `Syntax`; of its text only the kind is kept.

pub data SyntaxError : Type 0 where
  unterminated empty_char long_char bad_escape : SyntaxError
  unexpected_suffix unexpected_dot big_integer unexpected_character : SyntaxError
  expected_token expected_type references_not_supported expected_expression : SyntaxError
  expected_variable not_callable unexpected_end : SyntaxError

-- `panicked` is a panic of the code. `stuck` is no result of the code: a loop of the model ran out
-- of fuel.
pub data Result {ℓ} (A : Type ℓ) : Type ℓ where
  ok : A → Result A
  err : SyntaxError → Result A
  panicked stuck : Result A

-- An error ends the whole parse, so the state behind it does not matter.
abbrev pub M : Type 0 → Type 0 → Type 0
M S A = S → Result (A × S)

abbrev pub then_in {ℓ κ} : {A : Type ℓ} {B : Type κ} → Result A → (A → Result B) → Result B
then_in (ok a) f = f a
then_in (err e) f = err e
then_in panicked f = panicked
then_in stuck f = stuck

infixl 5 ◌>>=◌ ◌>>◌
abbrev pub ◌>>=◌ : {S A B : Type 0} → M S A → (A → M S B) → M S B
(m >>= f) s = then_in (m s) (λ r. f r.0 r.1)

abbrev pub ◌>>◌ : {S A B : Type 0} → M S A → M S B → M S B
m >> k = m >>= λ _. k

abbrev pub pure : {S A : Type 0} → A → M S A
pure a s = ok (a, s)

abbrev pub fail : {S A : Type 0} → SyntaxError → M S A
fail e s = err e

abbrev pub panic : {S A : Type 0} → M S A
panic s = panicked

-- A value or an error of the code, and the value as said.
pub data Ensures {A : Type 0} (P : A → Type 0) : Result A → Type 0 where
  holds : {a : A} → P a → Ensures P (ok a)
  rejected : {e : SyntaxError} → Ensures P (err e)
