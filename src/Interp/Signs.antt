-- ===== src/Interp/Signs.antt =====
-- The unary operators among the tokens of src/interp.rs: the lexer makes `!` only, which is what the
-- parser relies on.
use nnd.Base.{ℕ, ◌≡◌, Bool, true, false, ◌==◌, ◌||◌, if◌then◌else◌, Option, none, some}
use nnd.Interp.Input.{InputStream, peek}
use nnd.Interp.Lexer.{
  followed, operator, lex_minus, lex_less, lex_greater, lex_not, lex_operator, is_colon, lex_colon,
  lex_token, lex_dot, is_operator_start, is_bracket,
}
use nnd.Interp.Number.{
  is_within, is_letter, char_end, lex_char, lex_identifier, lex_quoted, lex_number, number_from,
  number_token, int_value, Fraction,
}
use nnd.Interp.Result.{
  Result, ok, err, panicked, stuck, M, then_in, ◌>>=◌, ◌>>◌, pure, fail, SyntaxError, Ensures,
  holds, rejected,
}
use nnd.Interp.Syntax
use nnd.Interp.Syntax.{BinaryOperator, Text}
use nnd.Interp.Token.{Token, unary_operator, binary_operator, char, arrow, literal, identifier}

-- No unary operator but `!`.
abbrev pub Sign : Token → Type 0
Sign (unary_operator Syntax.not) = Unit
Sign (unary_operator op) = true ≡ false
Sign _ = Unit

-- The value, where there is one.
abbrev pub When : {A : Type 0} → (A → Type 0) → Result A → Type 0
When P (ok x) = P x
When P _ = Unit

pub then_in-When :
    {A B : Type 0} (P : A → Type 0) (Q : B → Type 0) (r : Result A) (f : A → Result B)
    → When P r
    → ((x : A) → P x → When Q (f x))
    → When Q (then_in r f)
then_in-When P Q (ok x) f h k = k x h
then_in-When P Q (err e) f h k = tt
then_in-When P Q panicked f h k = tt
then_in-When P Q stuck f h k = tt

-- A value, and what is known of it.
pub Ensures-both :
    {A : Type 0} (P Q : A → Type 0) (r : Result A)
    → Ensures P r
    → When Q r
    → Ensures (λ x. P x × Q x) r
Ensures-both P Q _ (holds h) k = holds (h, k)
Ensures-both P Q _ rejected k = rejected

pub When-any : {A : Type 0} (r : Result A) → When (λ x. Unit {0}) r
When-any (ok x) = tt
When-any (err e) = tt
When-any panicked = tt
When-any stuck = tt

unfoldable pub Gives : {S : Type 0} → M S Token → Type 0
Gives {S} m = (s : S) → When (λ x. Sign x.0) (m s)

module _ {S : Type 0} where
  bind-Gives :
      {A : Type 0} (m : M S A) (f : A → M S Token) → ((a : A) → Gives (f a)) → Gives (m >>= f)
  unfolding Gives
  bind-Gives m f h s =
      then_in-When (λ x. Unit {0}) (λ x. Sign x.0) (m s) (λ x. f x.0 x.1) (When-any (m s))
        (λ x _. h x.0 x.1)

  if-Gives : (b : Bool) (m n : M S Token) → Gives m → Gives n → Gives (if b then m else n)
  if-Gives true m n h k = h
  if-Gives false m n h k = k

pure-Gives : (t : Token) → Sign t → Gives {S = InputStream} (pure t)
unfolding Gives
pure-Gives t h s = h

fail-Gives : (e : SyntaxError) → Gives {S = InputStream} (fail e)
unfolding Gives
fail-Gives e s = tt

ruleset gives = (bind-Gives, if-Gives, fail-Gives)

operator-Gives : (op : BinaryOperator) → Gives (operator op)
operator-Gives op = pure-Gives (binary_operator op) tt

followed-Gives :
    (c : ℕ) (op : BinaryOperator) (other : M InputStream Token)
    → Gives other
    → Gives (followed c op other)
unfolding followed
followed-Gives c op other h = search (gives, operator-Gives)

arrow-Gives : Gives {S = InputStream} (pure arrow)
arrow-Gives = pure-Gives arrow tt

not-Gives : Gives {S = InputStream} (pure (unary_operator Syntax.not))
not-Gives = pure-Gives (unary_operator Syntax.not) tt

lex_operator-Gives : (c : ℕ) → Gives (lex_operator c)
unfolding lex_operator lex_minus lex_less lex_greater lex_not
lex_operator-Gives c =
    search (gives, operator-Gives, followed-Gives, arrow-Gives, not-Gives) depth 40

char_end-Gives : (c : ℕ) (y : Option ℕ) → Gives (char_end c y)
unfolding char_end
char_end-Gives c none = fail-Gives _
char_end-Gives c (some x) = if-Gives _ _ _ (pure-Gives _ tt) (fail-Gives _)

lex_char-Gives : Gives lex_char
unfolding lex_char
lex_char-Gives = search (gives, char_end-Gives)

number_token-Gives :
    (radix : ℕ) (int_s : Text) (fr : Fraction) (exp_radix : ℕ) (negative : Bool) (exp_s : Text)
    → Gives (number_token radix int_s fr exp_radix negative exp_s)
unfolding number_token
number_token-Gives radix int_s fr exp_radix negative exp_s =
    if-Gives _ _ _ (pure-Gives _ tt) (go (int_value radix 0 int_s))
  where
    go :
        (o : Option ℕ)
        → Gives (elim o as (λ _. M InputStream Token) [
          | none ↦ fail nnd.Interp.Result.big_integer
          | some val ↦ pure (literal (Syntax.basic (Syntax.u val)))
        ])
    go none = fail-Gives _
    go (some val) = pure-Gives _ tt

lex_number-Gives : (previous_dot : Bool) → Gives (lex_number previous_dot)
unfolding lex_number number_from
lex_number-Gives previous_dot = search (gives, number_token-Gives) depth 20

identifier-Gives : (s : Text) → Gives {S = InputStream} (pure (identifier s false))
identifier-Gives s = pure-Gives (identifier s false) tt

lex_identifier-Gives : Gives lex_identifier
unfolding lex_identifier
lex_identifier-Gives = search (gives, identifier-Gives)

lex_colon-Gives : (next : Option ℕ) → Gives (lex_colon next)
unfolding lex_colon
lex_colon-Gives next = if-Gives (is_colon next) _ _ lex_identifier-Gives (pure-Gives (char b':') tt)

pub lex_token-Gives : (previous_dot : Bool) (c : ℕ) → Gives (lex_token previous_dot c)
unfolding lex_token
lex_token-Gives previous_dot c = if-Gives (is_operator_start c) _ _ (lex_operator-Gives c) (
    if-Gives (is_bracket c) _ _ (pure-Gives (char c) tt) (
      if-Gives (c == b':') _ _ (bind-Gives peek lex_colon lex_colon-Gives) (
        if-Gives (c == b'"') _ _ (bind-Gives (lex_quoted b'"') _ (λ s. pure-Gives _ tt)) (
          if-Gives (c == b'\'') _ _ lex_char-Gives (
            if-Gives (is_within b'0' b'9' c) _ _ (lex_number-Gives previous_dot) (
              if-Gives (c == b'`') _ _ (bind-Gives (lex_quoted b'`') _ (λ s. pure-Gives _ tt)) (
                if-Gives (is_letter c || c == b'#' || c == b'$') _ _ lex_identifier-Gives
                  (fail-Gives _))))))))

pub lex_dot-Gives : (two : Bool) → Gives (lex_dot two)
unfolding lex_dot Gives
lex_dot-Gives true s = tt
lex_dot-Gives false s = tt
