-- ===== src/Interp/Grouping.antt =====
-- How the operators of src/interp.rs group: two in a row, the tokens being ahead already.
use nnd.Base.{ℕ, ◌≡◌, refl, false, leb, if◌then◌else◌, List, [], ◌∷◌, Bool-cases, inl, inr, map}
use nnd.Interp.Build.{Parser, finish_node, push_node, node_at, update_node}
use nnd.Interp.Lexer.{peek_token, peek_from, peek_round, eat_token}
use nnd.Interp.Parser.{
  parse_expression, parse_first, behind_from, parse_behind, behind_next, parse_binary, join,
  end_node,
}
use nnd.Interp.Result.{Result, ok, then_in}
use nnd.Interp.Syntax.{
  Span, Ast, AstNode, BinaryOperator, LiteralValue, weakest, add, sub, mul, div, rem, bit_and,
  bit_or, bit_xor, shl, shr, eq, ne, gt, lt, ge, le, lazy_and, lazy_or, range, index, slicify,
  comma, strength, at_least, binary_operator_precedence,
}
use nnd.Interp.Token.{Token, literal}

-- Literals, and operators between them.
abbrev pub Chain : Type 0
Chain = LiteralValue × List (BinaryOperator × LiteralValue)

abbrev tokens_behind : List (BinaryOperator × LiteralValue) → List Token
tokens_behind [] = []
tokens_behind ((op, v) ∷ rest) = Token.binary_operator op ∷ literal v ∷ tokens_behind rest

-- The parser behind the text, with the tokens of a chain ahead, all with one span.
abbrev pub ahead_of : Span → Chain → Parser
ahead_of s (v, rest) = record {
  lex = record {
    input = record { eaten = []; rest = [] };
    next_tokens = map (λ t. (s, t)) (literal v ∷ tokens_behind rest);
    previous_token_end = 0;
    previous_dot = false;
  };
  ast = [];
}

-- A node without its span.
abbrev pub shape : AstNode → Ast × List ℕ
shape n = (n.a, n.children)

abbrev pub tree : Result (ℕ × Parser) → Result (ℕ × List (Ast × List ℕ))
tree r = then_in r (λ (root, p). ok (root, map shape p.ast))

weakest-at_least : (op : BinaryOperator) → at_least weakest (binary_operator_precedence op) ≡ false
unfolding strength binary_operator_precedence
weakest-at_least add = refl
weakest-at_least sub = refl
weakest-at_least mul = refl
weakest-at_least div = refl
weakest-at_least rem = refl
weakest-at_least bit_and = refl
weakest-at_least bit_or = refl
weakest-at_least bit_xor = refl
weakest-at_least shl = refl
weakest-at_least shr = refl
weakest-at_least eq = refl
weakest-at_least ne = refl
weakest-at_least gt = refl
weakest-at_least lt = refl
weakest-at_least ge = refl
weakest-at_least le = refl
weakest-at_least lazy_and = refl
weakest-at_least lazy_or = refl
weakest-at_least range = refl
weakest-at_least index = refl
weakest-at_least slicify = refl
weakest-at_least comma = refl
weakest-at_least _ = refl

-- Of two operators between three literals the first one is done first, unless the second one has
-- the higher precedence.
pub parse_expression-two :
    (s : Span) (a b c : LiteralValue) (op1 op2 : BinaryOperator)
    → tree (parse_expression 5 weakest (ahead_of s (a, (op1, b) ∷ (op2, c) ∷ []))) ≡ (
        if leb
          (strength (binary_operator_precedence op2))
          (strength (binary_operator_precedence op1))
        then ok (
          4,
          (Ast.literal a, [])
              ∷ (Ast.literal b, [])
              ∷ (Ast.binary_operator op1, 0 ∷ 1 ∷ [])
              ∷ (Ast.literal c, [])
              ∷ (Ast.binary_operator op2, 2 ∷ 3 ∷ [])
              ∷ [],
        )
        else ok (
          4,
          (Ast.literal a, [])
              ∷ (Ast.literal b, [])
              ∷ (Ast.literal c, [])
              ∷ (Ast.binary_operator op2, 1 ∷ 2 ∷ [])
              ∷ (Ast.binary_operator op1, 0 ∷ 3 ∷ [])
              ∷ [],
        ))
unfolding parse_expression parse_first behind_from parse_behind behind_next parse_binary join
    finish_node push_node node_at end_node update_node peek_token peek_from peek_round eat_token
parse_expression-two s a b c op1 op2 =
    elim (Bool-cases (at_least (binary_operator_precedence op1) (binary_operator_precedence op2))) [
      | inl q ↦ rw (weakest-at_least op1, q, weakest-at_least op2) refl
      | inr q ↦ rw (weakest-at_least op1, q) refl
    ]
