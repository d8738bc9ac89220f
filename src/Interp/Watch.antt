-- ===== src/Interp/Watch.antt =====
-- The functions of src/interp.rs on whole watch expressions, short of their evaluation.
use nnd.Base.{
  ℕ, zero, suc, Bool, true, false, not, ◌==◌, ◌&&◌, ◌||◌, if◌then◌else◌, List, [], ◌∷◌, ◌++◌,
  Option, none, some, length, get_elem?,
}
use nnd.Interp.Build.{Parser, peek}
use nnd.Interp.Number.{is_letter, is_within}
use nnd.Interp.Parser.{parse_expression}
use nnd.Interp.Result.{Result, ok, err, panicked, then_in, unexpected_end}
use nnd.Interp.Syntax.{
  Text, Ast, AstNode, Expression, weakest, literal, basic, u, variable, unary_operator,
  binary_operator, assign, index, slicify, type_cast, while_loop, for_loop, if_else, let_variable,
  function_definition, struct_definition,
}
use nnd.Interp.Token.{is_eof}
use nnd.Registers.{parse_ignore_case}

-- A parser before the first character.
abbrev pub start_parser : Text → Parser
start_parser s = record {
  lex = record {
    input = record { eaten = []; rest = s };
    next_tokens = [];
    previous_token_end = 0;
    previous_dot = false;
  };
  ast = [];
}

-- Nothing may stand behind the expression.
unfoldable pub parse_watch_expression : Text → Result Expression
unfolding parse_expression
parse_watch_expression s =
    then_in (parse_expression (suc (suc (length s))) weakest (start_parser s)) (λ (root, p).
      then_in (peek p) (λ (t, q).
        if is_eof t.1 then ok (record { ast = q.ast; root = root }) else err unexpected_end))

-- `expr.ast[i]`, in which an index out of range panics.
unfoldable pub ast_at : {A : Type 0} → List AstNode → ℕ → (AstNode → Result A) → Result A
ast_at ast i k = elim (get_elem? ast i) [ none ↦ panicked | some n ↦ k n ]

abbrev pub is_zero_literal : Ast → Bool
is_zero_literal (literal (basic (u zero))) = true
is_zero_literal _ = false

unfoldable pub is_trivial_false : Expression → Result Bool
unfolding ast_at
is_trivial_false expr = ast_at expr.ast expr.root (λ n. ok (is_zero_literal n.a))

-- Whether an expression needs parentheses before something is appended to it.
unfoldable pub needs_parens : Ast → Bool
needs_parens (binary_operator index) = false
needs_parens (binary_operator slicify) = false
needs_parens (binary_operator _) = true
needs_parens (unary_operator op) = true
needs_parens type_cast = true
needs_parens while_loop = true
needs_parens (for_loop name) = true
needs_parens if_else = true
needs_parens (let_variable name has_type) = true
needs_parens (function_definition name arg_names has_return_type) = true
needs_parens (struct_definition name field_names) = true
needs_parens _ = false

abbrev pub in_parens : Text → Bool → Text
in_parens s parentheses = if parentheses then b'(' ∷ (s ++ b')' ∷ []) else s

-- The left side of an assignment: its name stands for the whole, if it is a plain variable.
unfoldable pub assigned_name : Text → Ast → Text
assigned_name s (variable name false false) = name
assigned_name s _ = in_parens s true

-- `children[0]`, in which an index out of range panics.
unfoldable pub adjust_assignment : Text → List AstNode → List ℕ → Result Text
unfolding ast_at assigned_name
adjust_assignment s ast [] = panicked
adjust_assignment s ast (i ∷ is) = ast_at ast i (λ n. ok (assigned_name s n.a))

unfoldable pub adjust_node : Text → List AstNode → AstNode → Result Text
unfolding adjust_assignment needs_parens
adjust_node s ast n = elim n.a [
  | binary_operator assign ↦ adjust_assignment s ast n.children
  | a ↦ ok (in_parens s (if n.has_parens then false else needs_parens a))
]

unfoldable pub adjust_expression_for_appending_child_path : Text → Result Text
unfolding parse_watch_expression ast_at adjust_node
adjust_expression_for_appending_child_path s =
    then_in (parse_watch_expression s)
      (λ expr. ast_at expr.ast expr.root (λ n. adjust_node s expr.ast n))

unfoldable pub should_quote_from : Bool → Text → Bool
should_quote_from is_first [] = false
should_quote_from is_first (c ∷ cs) =
    let more = should_quote_from false cs in
    if is_letter c || c == b'#' || c == b'$' || c == b':' || (is_within b'0' b'9' c && not is_first)
    then more
    else true

unfoldable pub should_quote_identifier : Text → Bool
unfolding should_quote_from
should_quote_identifier [] = true
should_quote_identifier (c ∷ cs) = should_quote_from true (c ∷ cs)

abbrev pub is_there : Option ℕ → Bool
is_there none = false
is_there (some i) = true

unfoldable pub make_expression_for_variable : Text → Text
unfolding should_quote_identifier parse_ignore_case
make_expression_for_variable name =
    if is_there (parse_ignore_case name) || should_quote_identifier name
    then b'`' ∷ (name ++ b'`' ∷ [])
    else name

abbrev pub is_any_frame : Ast → Bool
is_any_frame (variable name quoted from_any_frame) = from_any_frame
is_any_frame _ = false

unfoldable pub does_expression_need_full_stack : List AstNode → Bool
does_expression_need_full_stack [] = false
does_expression_need_full_stack (n ∷ ast) = is_any_frame n.a || does_expression_need_full_stack ast
