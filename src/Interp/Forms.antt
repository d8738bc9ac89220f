-- ===== src/Interp/Forms.antt =====
-- The expressions of src/interp.rs that begin with a word, and the lists in brackets. `self` is
-- `parse_expression`; `fuel` bounds the rounds of the loops, each of which eats a token.
use nnd.Base.{
  ℕ, zero, suc, Bool, true, false, ◌==◌, ◌||◌, if◌then◌else◌, List, [], ◌∷◌, ◌++◌, Option, none,
  some, codes,
}
use nnd.Interp.Build.{
  Parser, peek, eat, eat_if, expect, push_node, finish_node, parse_type, comma_or,
}
use nnd.Interp.Result.{stuck, M, ◌>>=◌, ◌>>◌, pure, fail, panic, expected_token}
use nnd.Interp.Syntax.{
  Text, Span, Precedence, weakest, returning, comma_list, strongest, comma, assign, variable, tuple,
  struct_expression, struct_definition, continue_expression, break_expression, return_expression,
  block, while_loop, for_loop, if_else, let_variable, function_definition,
}
use nnd.Interp.Token.{
  Token, char, identifier, is_char, is_binary_operator, is_identifier, into_identifier, is_keyword,
  is_arrow, text_eq, is_eof,
}

-- `parse_expression` at a precedence.
abbrev pub Self : Type 0
Self = Precedence → M Parser ℕ

unfoldable pub block_next : (List ℕ → M Parser (List ℕ)) → List ℕ → Token → M Parser (List ℕ)
block_next again children (char c) =
    if c == b';' then again children else if c == b'}' then pure children else fail expected_token
block_next again children _ = fail expected_token

-- Behind the look for a closing brace: an empty tuple stands for what is not there.
unfoldable pub block_item :
    (List ℕ → M Parser (List ℕ)) → Self → List ℕ → Option (Span × Token) → M Parser (List ℕ)
unfolding block_next push_node
block_item again self children (some t) = do
  e ← push_node (record { span = t.0; a = tuple; children = []; has_parens = false })
  pure (children ++ e ∷ [])
block_item again self children none = do
  e ← self weakest
  t ← eat
  block_next again (children ++ e ∷ []) t.1

unfoldable pub block_from : Self → ℕ → List ℕ → M Parser (List ℕ)
unfolding block_item
block_from self zero children p = stuck
block_from self (suc fuel) children p =
    (eat_if (is_char b'}') >>= block_item (block_from self fuel) self children) p

-- The assertion that there are children.
unfoldable pub block_node : Span → List ℕ → M Parser ℕ
unfolding finish_node
block_node s [] = panic
block_node s (e ∷ es) = finish_node s block (e ∷ es)

unfoldable pub parse_block : Self → ℕ → M Parser ℕ
unfolding block_from block_node
parse_block self fuel = do
  t ← expect (is_char b'{')
  children ← block_from self fuel []
  block_node t.0 children

-- The fields of a struct, expressions or types by `item`, up to the closing brace.
abbrev pub Named : Type 0
Named = List Text × List ℕ

unfoldable pub field_next : (Named → M Parser Named) → M Parser ℕ → Named → Token → M Parser Named
unfolding comma_or
field_next again item fields (identifier s quoted) = do
  expect (is_char b':')
  ex ← item
  comma_or b'}'
  again (fields.0 ++ s ∷ [], fields.1 ++ ex ∷ [])
field_next again item fields (char c) = if c == b'}' then pure fields else fail expected_token
field_next again item fields _ = fail expected_token

unfoldable pub fields_from : M Parser ℕ → ℕ → Named → M Parser Named
unfolding field_next
fields_from item zero fields p = stuck
fields_from item (suc fuel) fields p =
    (do t ← eat; field_next (fields_from item fuel) item fields t.1) p

unfoldable pub struct_token : Self → ℕ → Span → Token → M Parser ℕ
unfolding fields_from finish_node
struct_token self fuel s (char c) =
    if c == b'{'
    then (do
      fields ← fields_from (self comma_list) fuel ([], [])
      finish_node s (struct_expression fields.0) fields.1)
    else fail expected_token
struct_token self fuel s (identifier name quoted) = do
  expect (is_char b'{')
  fields ← fields_from (parse_type fuel) fuel ([], [])
  finish_node s (struct_definition name fields.0) fields.1
struct_token self fuel s _ = fail expected_token

-- Whether a `return` stands alone before this token.
unfoldable pub ends_return : Token → Bool
ends_return t =
    is_eof t || is_char b';' t || is_binary_operator comma t || is_char b'}' t || is_char b')' t

unfoldable pub parse_return : Self → Span → M Parser ℕ
unfolding ends_return finish_node
parse_return self s = do
  t ← peek
  children ← (if ends_return t.1 then pure [] else (do e ← self returning; pure (e ∷ [])))
  finish_node s return_expression children

unfoldable pub parse_while : Self → ℕ → Span → M Parser ℕ
unfolding parse_block finish_node
parse_while self fuel s = do
  e ← self weakest
  b ← parse_block self fuel
  finish_node s while_loop (e ∷ b ∷ [])

unfoldable pub parse_for : Self → ℕ → Span → M Parser ℕ
unfolding parse_block finish_node into_identifier
parse_for self fuel s = do
  t ← expect is_identifier
  name ← into_identifier t.1
  expect (is_keyword (codes "in"))
  e ← self weakest
  b ← parse_block self fuel
  finish_node s (for_loop name) (e ∷ b ∷ [])

unfoldable pub parse_loop : Self → ℕ → Span → M Parser ℕ
unfolding parse_block finish_node
parse_loop self fuel s = do b ← parse_block self fuel; finish_node s while_loop (b ∷ [])

-- Behind a block of an `if`, and the look for an `else`.
unfoldable pub else_part : Self → ℕ → Option (Span × Token) → M Parser (List ℕ)
unfolding parse_block
else_part self fuel none = pure []
else_part self fuel (some q) = do
  t ← peek
  e ← (if is_keyword (codes "if") t.1 then self strongest else parse_block self fuel)
  pure (e ∷ [])

unfoldable pub parse_if : Self → ℕ → Span → M Parser ℕ
unfolding parse_block finish_node else_part
parse_if self fuel s = do
  e ← self weakest
  b ← parse_block self fuel
  q ← eat_if (is_keyword (codes "else"))
  more ← else_part self fuel q
  finish_node s if_else (e ∷ b ∷ more)

-- The type behind a colon or an arrow, if that is there.
unfoldable pub optional_type : ℕ → Option (Span × Token) → M Parser (List ℕ)
optional_type fuel none = pure []
optional_type fuel (some q) = do e ← parse_type fuel; pure (e ∷ [])

unfoldable pub optional_value : Self → Option (Span × Token) → M Parser (List ℕ)
optional_value self none = pure []
optional_value self (some q) = do e ← self weakest; pure (e ∷ [])

abbrev pub is_there : Option (Span × Token) → Bool
is_there none = false
is_there (some t) = true

unfoldable pub parse_let : Self → ℕ → Span → M Parser ℕ
unfolding optional_type optional_value finish_node into_identifier
parse_let self fuel s = do
  t ← expect is_identifier
  name ← into_identifier t.1
  colon ← eat_if (is_char b':')
  type ← optional_type fuel colon
  equals ← eat_if (is_binary_operator assign)
  value ← optional_value self equals
  finish_node s (let_variable name (is_there colon)) (type ++ value)

-- Behind the look for the closing parenthesis of a parameter list.
unfoldable pub param_next :
    (Named → M Parser Named) → ℕ → Named → Option (Span × Token) → M Parser Named
unfolding into_identifier
param_next again fuel args (some q) = pure args
param_next again fuel args none = do
  t ← expect is_identifier
  arg_name ← into_identifier t.1
  expect (is_char b':')
  e ← parse_type fuel
  again (args.0 ++ arg_name ∷ [], args.1 ++ e ∷ [])

unfoldable pub params_from : ℕ → ℕ → Named → M Parser Named
unfolding param_next
params_from type_fuel zero args p = stuck
params_from type_fuel (suc fuel) args p =
    (eat_if (is_char b')') >>= param_next (params_from type_fuel fuel) type_fuel args) p

unfoldable pub parse_fn : Self → ℕ → Span → M Parser ℕ
unfolding params_from optional_type parse_block finish_node into_identifier
parse_fn self fuel s = do
  t ← expect is_identifier
  name ← into_identifier t.1
  expect (is_char b'(')
  args ← params_from fuel fuel ([], [])
  arrow ← eat_if is_arrow
  type ← optional_type fuel arrow
  b ← parse_block self fuel
  finish_node s (function_definition name args.0 (is_there arrow)) (args.1 ++ (type ++ b ∷ []))

-- An identifier that is not quoted: a word of the language, or a variable.
unfoldable pub parse_word : Self → ℕ → Span → Text → M Parser ℕ
unfolding struct_token parse_return parse_while parse_for parse_loop parse_if parse_let parse_fn
    finish_node text_eq
parse_word self fuel s word =
    if text_eq word (codes "struct")
    then (do t ← eat; struct_token self fuel s t.1)
    else if text_eq word (codes "continue")
    then finish_node s continue_expression []
    else if text_eq word (codes "break")
    then finish_node s break_expression []
    else if text_eq word (codes "return")
    then parse_return self s
    else if text_eq word (codes "while")
    then parse_while self fuel s
    else if text_eq word (codes "for")
    then parse_for self fuel s
    else if text_eq word (codes "loop")
    then parse_loop self fuel s
    else if text_eq word (codes "if")
    then parse_if self fuel s
    else if text_eq word (codes "let")
    then parse_let self fuel s
    else if text_eq word (codes "fn")
    then parse_fn self fuel s
    else finish_node s (variable word false false) []

unfoldable pub array_next :
    (List ℕ → M Parser (List ℕ)) → Self → List ℕ → Option (Span × Token) → M Parser (List ℕ)
unfolding comma_or
array_next again self children (some q) = pure children
array_next again self children none = do
  e ← self comma_list
  comma_or b']'
  again (children ++ e ∷ [])

unfoldable pub array_from : Self → ℕ → List ℕ → M Parser (List ℕ)
unfolding array_next
array_from self zero children p = stuck
array_from self (suc fuel) children p =
    (eat_if (is_char b']') >>= array_next (array_from self fuel) self children) p
