-- ===== src/Interp/Token.antt =====
-- The tokens of src/interp.rs, and the tests on them.
use nnd.Base.{ℕ, Bool, true, false, not, ◌==◌, ◌&&◌, [], ◌∷◌}
use nnd.Interp.Result.{M, pure, panic}
use nnd.Interp.Syntax.{Text, LiteralValue, UnaryOperator, BinaryOperator, operator_code}

pub data Token : Type 0 where
  binary_operator : BinaryOperator → Token
  unary_operator : UnaryOperator → Token
  arrow : Token
  char : ℕ → Token
  literal : LiteralValue → Token
  identifier : Text → Bool → Token
  eof : Token

unfoldable pub is_identifier : Token → Bool
is_identifier (identifier s quoted) = true
is_identifier _ = false

unfoldable pub into_identifier : {S : Type 0} → Token → M S Text
into_identifier (identifier s quoted) = pure s
into_identifier _ = panic

-- `==` on texts.
unfoldable pub text_eq : Text → Text → Bool
text_eq [] [] = true
text_eq (a ∷ s) (b ∷ t) = a == b && text_eq s t
text_eq _ _ = false

unfoldable pub is_keyword : Text → Token → Bool
unfolding text_eq
is_keyword word (identifier s quoted) = not quoted && text_eq s word
is_keyword word _ = false

unfoldable pub is_char : ℕ → Token → Bool
is_char c (char x) = x == c
is_char c _ = false

unfoldable pub is_arrow : Token → Bool
is_arrow arrow = true
is_arrow _ = false

unfoldable pub is_binary_operator : BinaryOperator → Token → Bool
unfolding operator_code
is_binary_operator op (binary_operator x) = operator_code x == operator_code op
is_binary_operator op _ = false

unfoldable pub is_eof : Token → Bool
is_eof eof = true
is_eof _ = false
