-- ===== src/Interp/Lexer.antt =====
-- `Lexer` of src/interp.rs: the tokens that were read ahead, and how the next one is read.
use nnd.Base.{
  ℕ, zero, suc, ◌-◌, min, Bool, true, false, ◌==◌, ◌||◌, if◌then◌else◌, List, [], ◌∷◌, ◌++◌, Option,
  none, some, length, get_elem?, drop, take,
}
use nnd.Interp.Input.{InputStream, pos, eat_if_eq, peek}
use nnd.Interp.Number.{is_letter, is_within, lex_number, lex_quoted, lex_char, lex_identifier}
use nnd.Interp.Result.{
  ok, panicked, stuck, M, then_in, ◌>>=◌, ◌>>◌, pure, fail, unexpected_character, expected_token,
}
use nnd.Interp.Syntax
use nnd.Interp.Syntax.{
  Text, Span, BinaryOperator, add, sub, mul, div, rem, bit_and, bit_or, bit_xor, shl, shr, eq, ne,
  gt, lt, ge, le, lazy_and, lazy_or, assign, add_assign, sub_assign, mul_assign, div_assign,
  rem_assign, and_assign, or_assign, xor_assign, shl_assign, shr_assign, range, comma, string,
}
use nnd.Interp.Token.{Token, binary_operator, unary_operator, arrow, char, literal, identifier, eof}

pub record Lexer : Type 0 where
  pub input : InputStream
  pub next_tokens : List (Span × Token)
  pub previous_token_end : ℕ
  pub previous_dot : Bool

-- An operator, or another one if `c` follows.
unfoldable pub followed : ℕ → BinaryOperator → M InputStream Token → M InputStream Token
followed c op other = do q ← eat_if_eq c; (if q then pure (binary_operator op) else other)

abbrev pub operator : BinaryOperator → M InputStream Token
operator op = pure (binary_operator op)

unfoldable pub lex_minus : M InputStream Token
unfolding followed
lex_minus = do
  q ← eat_if_eq b'>'
  (if q then pure arrow else followed b'=' sub_assign (operator sub))

unfoldable pub lex_less : M InputStream Token
unfolding followed
lex_less =
    followed b'=' le
      (do q ← eat_if_eq b'<'; (if q then followed b'=' shl_assign (operator shl) else operator lt))

unfoldable pub lex_greater : M InputStream Token
unfolding followed
lex_greater =
    followed b'=' ge
      (do q ← eat_if_eq b'>'; (if q then followed b'=' shr_assign (operator shr) else operator gt))

unfoldable pub lex_not : M InputStream Token
unfolding followed
lex_not = followed b'=' ne (pure (unary_operator Syntax.not))

unfoldable pub is_operator_start : ℕ → Bool
is_operator_start c =
    c == b'+'
    || c == b'-'
    || c == b'*'
    || c == b'/'
    || c == b'%'
    || c == b'&'
    || c == b'|'
    || c == b'^'
    || c == b'<'
    || c == b'>'
    || c == b'='
    || c == b'!'
    || c == b','

unfoldable pub lex_operator : ℕ → M InputStream Token
unfolding followed lex_minus lex_less lex_greater lex_not
lex_operator c =
    if c == b'+'
    then followed b'=' add_assign (operator add)
    else if c == b'-'
    then lex_minus
    else if c == b'*'
    then followed b'=' mul_assign (operator mul)
    else if c == b'/'
    then followed b'=' div_assign (operator div)
    else if c == b'%'
    then followed b'=' rem_assign (operator rem)
    else if c == b'&'
    then followed b'=' and_assign (followed b'&' lazy_and (operator bit_and))
    else if c == b'|'
    then followed b'=' or_assign (followed b'|' lazy_or (operator bit_or))
    else if c == b'^'
    then followed b'=' xor_assign (operator bit_xor)
    else if c == b'<'
    then lex_less
    else if c == b'>'
    then lex_greater
    else if c == b'='
    then followed b'=' eq (operator assign)
    else if c == b'!'
    then lex_not
    else operator comma

unfoldable pub is_bracket : ℕ → Bool
is_bracket c =
    c == b'('
    || c == b')'
    || c == b'['
    || c == b']'
    || c == b'{'
    || c == b'}'
    || c == b';'
    || c == b'@'

-- A colon that no colon follows is a token of its own.
unfoldable pub is_colon : Option ℕ → Bool
is_colon none = false
is_colon (some c) = c == b':'

unfoldable pub lex_colon : Option ℕ → M InputStream Token
unfolding is_colon lex_identifier
lex_colon next = if is_colon next then lex_identifier else pure (char b':')

-- The token that begins with the character `c`, which is eaten, where it is no dot.
unfoldable pub lex_token : Bool → ℕ → M InputStream Token
unfolding lex_operator is_operator_start is_bracket lex_colon lex_quoted lex_char lex_number
    lex_identifier
lex_token previous_dot c =
    if is_operator_start c
    then lex_operator c
    else if is_bracket c
    then pure (char c)
    else if c == b':'
    then peek >>= lex_colon
    else if c == b'"'
    then (do s ← lex_quoted b'"'; pure (literal (string s)))
    else if c == b'\''
    then lex_char
    else if is_within b'0' b'9' c
    then lex_number previous_dot
    else if c == b'`'
    then (do s ← lex_quoted b'`'; pure (identifier s true))
    else if is_letter c || c == b'#' || c == b'$'
    then lex_identifier
    else fail unexpected_character

abbrev pub on_input : {A : Type 0} → M InputStream A → M Lexer A
on_input m lex = then_in (m lex.input) (λ r. ok (r.0, record lex { input = r.1 }))

unfoldable pub lex_dot : Bool → M Lexer Token
lex_dot two lex =
    if two
    then ok (binary_operator range, lex)
    else ok (char b'.', record lex { previous_dot = true })

abbrev pub is_whitespace : ℕ → Bool
is_whitespace c = c == b' ' || c == b'\t' || c == b'\n' || c == b'\r'

unfoldable pub push_token : ℕ → Token → M Lexer (Unit {0})
push_token start token lex = ok (
  tt,
  record lex {
    next_tokens = lex.next_tokens ++ (record { start = start; end = pos lex.input }, token) ∷ [];
  },
)

-- Behind the character `c`; `again` looks at the tokens once more.
unfoldable pub lex_round : M Lexer (Span × Token) → ℕ → Bool → ℕ → M Lexer (Span × Token)
unfolding lex_dot lex_token push_token
lex_round again start previous_dot c = if is_whitespace c then again else (do
  token ←
      (if c == b'.'
        then on_input (eat_if_eq b'.') >>= lex_dot
        else on_input (lex_token previous_dot c))
  push_token start token
  again)

-- One round of `peek`, on the token that is there already and the characters that are left.
unfoldable pub peek_round :
    M Lexer (Span × Token) → Option (Span × Token) → Text → M Lexer (Span × Token)
unfolding lex_round
peek_round again (some t) rest lex = ok (t, lex)
peek_round again none [] lex =
    ok ((record { start = pos lex.input; end = pos lex.input }, eof), lex)
peek_round again none (c ∷ cs) lex =
    lex_round again (pos lex.input) lex.previous_dot c (record lex {
      input = record { eaten = c ∷ lex.input.eaten; rest = cs };
      previous_dot = false;
    })

unfoldable pub peek_from : ℕ → ℕ → M Lexer (Span × Token)
unfolding peek_round
peek_from zero n lex = stuck
peek_from (suc fuel) n lex =
    peek_round (peek_from fuel n) (get_elem? lex.next_tokens (n - 1)) lex.input.rest lex

-- The `n`th token that is ahead. Each round but the last eats a character.
unfoldable pub peek_token : ℕ → M Lexer (Span × Token)
unfolding peek_from
peek_token n lex = if n == 0 then panicked else peek_from (suc (length lex.input.rest)) n lex

abbrev pub last_or : {A : Type 0} → A → List A → A
last_or d [] = d
last_or d (x ∷ xs) = last_or x xs

-- `n` tokens are taken, or as many as there are; the last one is given.
unfoldable pub eat_token : ℕ → M Lexer (Span × Token)
unfolding peek_token
eat_token n lex = then_in (peek_token n lex) (λ (t, l). ok (
  last_or (record { start = pos l.input; end = pos l.input }, eof)
      (take (min n (length l.next_tokens)) l.next_tokens),
  record l {
    next_tokens = drop (min n (length l.next_tokens)) l.next_tokens;
    previous_token_end = t.0.end;
  },
))

-- `remove(0)` panics where there is no token.
unfoldable pub remove_first : List (Span × Token) → M Lexer (Option (Span × Token))
remove_first [] lex = panicked
remove_first (t ∷ ts) lex =
    ok (some t, record lex { next_tokens = ts; previous_token_end = t.0.end })

unfoldable pub eat_if : (Token → Bool) → M Lexer (Option (Span × Token))
unfolding peek_token remove_first
eat_if test = do
  t ← peek_token 1
  (if test t.1 then (λ lex. remove_first lex.next_tokens lex) else pure none)

unfoldable pub peek_expect : (Token → Bool) → M Lexer (Span × Token)
unfolding peek_token
peek_expect test = do t ← peek_token 1; (if test t.1 then pure t else fail expected_token)

unfoldable pub expect : (Token → Bool) → M Lexer (Span × Token)
unfolding peek_expect eat_token
expect test = do peek_expect test; eat_token 1
