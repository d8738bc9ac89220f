-- ===== src/Interp/Parser.antt =====
-- `parse_expression` of src/interp.rs: an expression to begin with, then the operators behind it
-- that bind tighter than what stands before.
use nnd.Base.{
  ℕ, zero, suc, Bool, true, false, ◌==◌, if◌then◌else◌, List, [], ◌∷◌, ◌++◌, Option, none, some,
  codes,
}
use nnd.Interp.Build.{
  Parser, peek, eat, expect, push_node, finish_node, node_at, update_node, parse_type, comma_or,
}
use nnd.Interp.Forms.{Self, parse_block, parse_word, array_from}
use nnd.Interp.Result.{
  stuck, M, ◌>>=◌, ◌>>◌, pure, fail, panic, expected_token, expected_expression, expected_variable,
  not_callable,
}
use nnd.Interp.Syntax
use nnd.Interp.Syntax.{
  Text, Span, Ast, AstNode, LiteralValue, UnaryOperator, BinaryOperator, Precedence, weakest,
  comma_list, casting, call_or_index, field_access, strongest, sub, mul, bit_and, bit_xor, comma,
  index, slicify, operator_code, at_least, binary_operator_precedence, unary_operator_precedence,
  neg, borrow, dereference, as_unsigned, variable, field, type_cast, array, tuple_indexing, call,
  type_info,
}
use nnd.Interp.Token.{Token, char, literal, identifier, is_char, is_keyword, text_eq}

-- A sign of the language before an expression.
unfoldable pub parse_unary : Self → Span → UnaryOperator → M Parser ℕ
unfolding finish_node unary_operator_precedence
parse_unary self s op = do
  e ← self (unary_operator_precedence op)
  finish_node s (Ast.unary_operator op) (e ∷ [])

-- `^` before a variable.
unfoldable pub any_frame : ℕ → Span → Ast → M Parser ℕ
unfolding update_node
any_frame e s (variable name quoted from_any_frame) = do
  update_node e (λ n. record n {
    a = variable name quoted true;
    span = record { start = s.start; end = n.span.end };
  })
  pure e
any_frame e s _ = fail expected_variable

unfoldable pub parse_prefix : Self → Span → BinaryOperator → M Parser ℕ
unfolding any_frame parse_unary node_at
parse_prefix self s bit_xor = do e ← self strongest; n ← node_at e; any_frame e s n.a
parse_prefix self s sub = parse_unary self s neg
parse_prefix self s mul = parse_unary self s dereference
parse_prefix self s bit_and = parse_unary self s borrow
parse_prefix self s _ = fail expected_expression

-- The end of an expression in parentheses, whose node is widened and marked.
unfoldable pub close_parens : ℕ → Span → Span × Token → M Parser ℕ
unfolding update_node
close_parens e s t =
    if is_char b')' t.1
    then (do
      update_node e
          (λ n. record n { span = record { start = s.start; end = t.0.end }; has_parens = true })
      pure e)
    else fail expected_token

unfoldable pub parse_bracket : Self → ℕ → Span → ℕ → M Parser ℕ
unfolding parse_block close_parens array_from finish_node
parse_bracket self fuel s c =
    if c == b'{'
    then parse_block self fuel
    else if c == b'('
    then (do e ← self weakest; t ← eat; close_parens e s t)
    else if c == b'['
    then (do children ← array_from self fuel []; finish_node s array children)
    else fail expected_expression

-- The expression that begins with a token.
unfoldable pub parse_first : Self → ℕ → Span → Token → M Parser ℕ
unfolding parse_word parse_prefix parse_unary parse_bracket finish_node
parse_first self fuel s (literal value) = finish_node s (Ast.literal value) []
parse_first self fuel s (identifier name true) = finish_node s (variable name true false) []
parse_first self fuel s (identifier name false) = parse_word self fuel s name
parse_first self fuel s (Token.binary_operator op) = parse_prefix self s op
parse_first self fuel s (Token.unary_operator Syntax.not) = parse_unary self s Syntax.not
parse_first self fuel s (Token.unary_operator _) = panic
parse_first self fuel s (char c) = parse_bracket self fuel s c
parse_first self fuel s _ = fail expected_expression

-- A node over two others, from the start of the one to the end of the other.
unfoldable pub join : Ast → ℕ → ℕ → M Parser ℕ
unfolding node_at push_node
join a i j = do
  m ← node_at i
  n ← node_at j
  push_node (record {
    span = record { start = m.span.start; end = n.span.end };
    a = a;
    children = i ∷ j ∷ [];
    has_parens = false;
  })

-- Behind an operator, `self` reading the right side.
unfoldable pub parse_binary : Self → ℕ → BinaryOperator → M Parser ℕ
unfolding join binary_operator_precedence
parse_binary self i op = do
  eat
  rhs ← self (binary_operator_precedence op)
  join (Ast.binary_operator op) i rhs

unfoldable pub add_child : ℕ → ℕ → M Parser (Unit {0})
unfolding update_node
add_child i e = update_node i (λ n. record n { children = n.children ++ e ∷ [] })

-- One round of the arguments of a call; the closing parenthesis is left.
unfoldable pub argument_next : M Parser (Unit {0}) → Self → ℕ → Span × Token → M Parser (Unit {0})
unfolding add_child comma_or
argument_next again self i t =
    if is_char b')' t.1
    then pure tt
    else (do ex ← self comma_list; add_child i ex; comma_or b')'; again)

unfoldable pub arguments_from : Self → ℕ → ℕ → M Parser (Unit {0})
unfolding argument_next
arguments_from self zero i p = stuck
arguments_from self (suc fuel) i p = (peek >>= argument_next (arguments_from self fuel i) self i) p

-- The inside of the parentheses of `type` or of a call.
unfoldable pub call_inside : Self → ℕ → ℕ → Text → M Parser (Unit {0})
unfolding add_child arguments_from update_node text_eq
call_inside self fuel i name =
    if text_eq name (codes "type")
    then (do t ← parse_type fuel; add_child i t; update_node i (λ n. record n { a = type_info }))
    else (do arguments_from self fuel i; update_node i (λ n. record n { a = call name }))

unfoldable pub call_node : Self → ℕ → ℕ → Ast → M Parser ℕ
unfolding call_inside update_node
call_node self fuel i (variable name false false) = do
  call_inside self fuel i name
  t ← expect (is_char b')')
  update_node i (λ n. record n { span = record { start = n.span.start; end = t.0.end } })
  pure i
call_node self fuel i _ = fail not_callable

unfoldable pub parse_call : Self → ℕ → ℕ → M Parser ℕ
unfolding call_node node_at
parse_call self fuel i = do eat; n ← node_at i; call_node self fuel i n.a

unfoldable pub parse_index : Self → ℕ → M Parser ℕ
unfolding join
parse_index self i = do
  eat
  rhs ← self weakest
  expect (is_char b']')
  join (Ast.binary_operator index) i rhs

-- What stands behind a dot, and the children that it adds.
unfoldable pub field_literal : LiteralValue → M Parser (Ast × List ℕ)
field_literal value = elim (as_unsigned value) [
  | none ↦ fail expected_token
  | some n ↦ pure (tuple_indexing n, [])
]

unfoldable pub field_token : Self → Token → M Parser (Ast × List ℕ)
unfolding field_literal
field_token self (identifier s quoted) = pure (field s quoted, [])
field_token self (literal value) = field_literal value
field_token self (char c) =
    if c == b'['
    then (do e ← self weakest; expect (is_char b']'); pure (Ast.binary_operator slicify, e ∷ []))
    else fail expected_token
field_token self _ = fail expected_token

unfoldable pub parse_field : Self → ℕ → M Parser ℕ
unfolding field_token node_at push_node
parse_field self i = do
  eat
  t ← eat
  n ← node_at i
  r ← field_token self t.1
  push_node (record {
    span = record { start = n.span.start; end = t.0.end };
    a = r.0;
    children = i ∷ r.1;
    has_parens = false;
  })

unfoldable pub parse_cast : ℕ → ℕ → M Parser ℕ
unfolding join
parse_cast fuel i = do eat; type ← parse_type fuel; join type_cast i type

-- The loop goes on with a new node, or ends.
abbrev pub unless : Bool → M Parser ℕ → M Parser (Option ℕ)
unless stop m = if stop then pure none else (do i ← m; pure (some i))

-- What the token behind the node `i` does to it, if it binds tighter than `outer`.
unfoldable pub parse_behind : Self → ℕ → Precedence → ℕ → Token → M Parser (Option ℕ)
unfolding parse_binary parse_call parse_index parse_field parse_cast binary_operator_precedence
    is_keyword
parse_behind self fuel outer i (Token.binary_operator op) =
    unless (at_least outer (binary_operator_precedence op)) (parse_binary self i op)
parse_behind self fuel outer i (char c) =
    if c == b'('
    then unless (at_least outer call_or_index) (parse_call self fuel i)
    else if c == b'['
    then unless (at_least outer call_or_index) (parse_index self i)
    else if c == b'.'
    then unless (at_least outer field_access) (parse_field self i)
    else pure none
parse_behind self fuel outer i (identifier s quoted) =
    if is_keyword (codes "as") (identifier s quoted)
    then unless (at_least outer casting) (parse_cast fuel i)
    else pure none
parse_behind self fuel outer i _ = pure none

-- The end of a round: the node ends behind the last token.
unfoldable pub end_node : ℕ → M Parser (Unit {0})
unfolding update_node
end_node i p =
    update_node i
      (λ n. record n { span = record { start = n.span.start; end = p.lex.previous_token_end } }) p

unfoldable pub behind_next : (ℕ → M Parser ℕ) → ℕ → Option ℕ → M Parser ℕ
unfolding end_node
behind_next again i none = pure i
behind_next again i (some j) = do end_node j; again j

unfoldable pub behind_from : Self → ℕ → ℕ → Precedence → ℕ → M Parser ℕ
unfolding parse_behind behind_next
behind_from self inner zero outer i p = stuck
behind_from self inner (suc fuel) outer i p =
    (do
      t ← peek
      r ← parse_behind self inner outer i t.1
      behind_next (behind_from self inner fuel outer) i r)
      p

-- Each call eats a token, and each round of a loop does.
unfoldable pub parse_expression : ℕ → Precedence → M Parser ℕ
unfolding parse_first behind_from
parse_expression zero outer p = stuck
parse_expression (suc fuel) outer p =
    (do
      t ← eat
      i ← parse_first (parse_expression fuel) fuel t.0 t.1
      behind_from (parse_expression fuel) fuel fuel outer i)
      p
