-- ===== src/Interp/Build.antt =====
-- What the parser of src/interp.rs works on: the lexer and the nodes so far, and its type syntax.
use nnd.Base.{
  ℕ, zero, suc, Bool, false, ◌==◌, if◌then◌else◌, List, [], ◌∷◌, ◌++◌, Option, none, some, length,
  get_elem?, set,
}
use nnd.Interp.Lexer
use nnd.Interp.Lexer.{Lexer, peek_token, eat_token}
use nnd.Interp.Result.{
  Result, ok, panicked, stuck, M, then_in, ◌>>=◌, ◌>>◌, pure, fail, expected_token, expected_type,
  references_not_supported,
}
use nnd.Interp.Syntax.{
  Span, Ast, AstNode, mul, bit_and, operator_code, comma, pointer_type, array_type, named_type,
  as_unsigned, LiteralValue,
}
use nnd.Interp.Token.{
  Token, binary_operator, char, literal, identifier, is_char, is_binary_operator,
}

pub record Parser : Type 0 where
  pub lex : Lexer
  pub ast : List AstNode

abbrev pub on_lexer : {A : Type 0} → M Lexer A → M Parser A
on_lexer m p = then_in (m p.lex) (λ r. ok (r.0, record p { lex = r.1 }))

abbrev pub peek : M Parser (Span × Token)
peek = on_lexer (peek_token 1)

abbrev pub eat : M Parser (Span × Token)
eat = on_lexer (eat_token 1)

abbrev pub eat_if : (Token → Bool) → M Parser (Option (Span × Token))
eat_if test = on_lexer (Lexer.eat_if test)

abbrev pub peek_expect : (Token → Bool) → M Parser (Span × Token)
peek_expect test = on_lexer (Lexer.peek_expect test)

abbrev pub expect : (Token → Bool) → M Parser (Span × Token)
expect test = on_lexer (Lexer.expect test)

unfoldable pub push_node : AstNode → M Parser ℕ
push_node n p = ok (length p.ast, record p { ast = p.ast ++ n ∷ [] })

-- The node whose span begins as said and ends behind the last token that was eaten.
unfoldable pub finish_node : Span → Ast → List ℕ → M Parser ℕ
unfolding push_node
finish_node s a children p =
    push_node
      (record {
        span = record { start = s.start; end = p.lex.previous_token_end };
        a = a;
        children = children;
        has_parens = false;
      })
      p

abbrev pub found_node : Parser → Option AstNode → Result (AstNode × Parser)
found_node p none = panicked
found_node p (some n) = ok (n, p)

-- `expr.ast[i]`, in which an index out of range panics.
unfoldable pub node_at : ℕ → M Parser AstNode
node_at i p = found_node p (get_elem? p.ast i)

unfoldable pub update_node : ℕ → (AstNode → AstNode) → M Parser (Unit {0})
unfolding node_at
update_node i g = do n ← node_at i; (λ p. ok (tt, record p { ast = set p.ast i (g n) }))

unfoldable pub array_end : LiteralValue → M Parser (Option ℕ)
array_end value = elim (as_unsigned value) [
  | none ↦ fail expected_token
  | some len ↦ (do expect (is_char b']'); pure (some len))
]

unfoldable pub sized : Token → M Parser (Option ℕ)
unfolding array_end
sized (literal value) = array_end value
sized _ = fail expected_token

-- What stands behind the type of an array's elements.
unfoldable pub array_len : Token → M Parser (Option ℕ)
unfolding sized
array_len (char c) =
    if c == b';'
    then (do t ← eat; sized t.1)
    else if c == b']'
    then pure none
    else fail expected_token
array_len _ = fail expected_token

unfoldable pub type_token : M Parser ℕ → Span → Token → M Parser ℕ
unfolding finish_node array_len operator_code
type_token self s (binary_operator op) =
    if operator_code op == operator_code mul
    then (do e ← self; finish_node s pointer_type (e ∷ []))
    else if operator_code op == operator_code bit_and
    then fail references_not_supported
    else fail expected_type
type_token self s (identifier name quoted) = finish_node s (named_type name quoted) []
type_token self s (char c) =
    if c == b'['
    then (do e ← self; t ← eat; len ← array_len t.1; finish_node s (array_type len) (e ∷ []))
    else fail expected_type
type_token self s _ = fail expected_type

unfoldable pub parse_type : ℕ → M Parser ℕ
unfolding type_token
parse_type zero p = stuck
parse_type (suc fuel) p = (do t ← eat; type_token (parse_type fuel) t.0 t.1) p

-- Between the elements of a list: a comma, or the end, which is left.
unfoldable pub comma_or : ℕ → M Parser (Unit {0})
comma_or c = do
  q ← eat_if (is_binary_operator comma)
  elim q [ none ↦ (do peek_expect (is_char c); pure tt) | some t ↦ pure tt ]
