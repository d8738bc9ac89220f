-- ===== src/Tests/Interp.antt =====
-- Runs of the lexer and the parser of src/interp.rs, its unit tests among them, and the theorems at
-- texts that meet their hypotheses.
use nnd.Base.{ℕ, Bool, true, false, ◌≡◌, refl, List, [], ◌∷◌, codes, map, length}
use nnd.Interp.Build.{parse_type}
use nnd.Interp.Grouping.{parse_expression-two, ahead_of, tree}
use nnd.Interp.Input.{eat_digits_from, eat_if_eq_from}
use nnd.Interp.Lexer.{eat_token, eat_if, peek_expect, expect}
use nnd.Interp.Parser.{parse_expression}
use nnd.Interp.Result.{Result, ok, err, panicked, stuck}
use nnd.Interp.Syntax.{
  Ast, Expression, literal, basic, u, binary_operator, add, mul, weakest,
  binary_operator_precedence, strength,
}
use nnd.Interp.Token.{text_eq, is_char, is_binary_operator, is_eof, is_identifier}
use nnd.Interp.Variable.{make_expression_for_variable-parsed, variable_expression}
use nnd.Interp.Watch.{parse_watch_expression, make_expression_for_variable, should_quote_identifier}
use nnd.Registers.{parse_ignore_case}

abbrev accepted : Result Expression → Bool
accepted (ok e) = true
accepted _ = false

abbrev shapes : Result Expression → List (Ast × List ℕ)
shapes (ok e) = map (λ n. (n.a, n.children)) e.ast
shapes _ = []

abbrev children_counts : Result Expression → List ℕ
children_counts (ok e) = map (λ n. length n.children) e.ast
children_counts _ = []

number_lexing :
    map
      (λ s. accepted (parse_watch_expression s))
      (codes "0..10" ∷ codes "1..2" ∷ codes "1 .. 2" ∷ codes "1.5" ∷ codes "0x1p10" ∷ [])
    ≡ true ∷ true ∷ true ∷ true ∷ true ∷ []
unfolding parse_watch_expression eat_token eat_if peek_expect expect eat_digits_from eat_if_eq_from
    strength is_char is_binary_operator is_eof is_identifier parse_type
number_lexing = refl

call_arguments : children_counts (parse_watch_expression (codes "f(a, b)")) ≡ 2 ∷ 0 ∷ 0 ∷ []
unfolding parse_watch_expression eat_token eat_if peek_expect expect eat_digits_from eat_if_eq_from
    strength is_char is_binary_operator is_eof is_identifier parse_type
call_arguments = refl

array_elements : children_counts (parse_watch_expression (codes "[1, 2, 3]")) ≡ 0 ∷ 0 ∷ 0 ∷ 3 ∷ []
unfolding parse_watch_expression eat_token eat_if peek_expect expect eat_digits_from eat_if_eq_from
    strength is_char is_binary_operator is_eof is_identifier parse_type
array_elements = refl

struct_fields :
    children_counts (parse_watch_expression (codes "struct { x: 1, y: 2 }")) ≡ 0 ∷ 0 ∷ 2 ∷ []
unfolding parse_watch_expression eat_token eat_if peek_expect expect eat_digits_from eat_if_eq_from
    strength is_char is_binary_operator is_eof is_identifier parse_type
struct_fields = refl

comma_in_parens : accepted (parse_watch_expression (codes "(p, 10)")) ≡ true
unfolding parse_watch_expression eat_token eat_if peek_expect expect eat_digits_from eat_if_eq_from
    strength is_char is_binary_operator is_eof is_identifier parse_type
comma_in_parens = refl

-- The parameters of a function cannot be separated.
two_parameters : accepted (parse_watch_expression (codes "fn f(a: u8, b: u8) { a }")) ≡ false
unfolding parse_watch_expression eat_token eat_if peek_expect expect eat_digits_from eat_if_eq_from
    strength is_char is_binary_operator is_eof is_identifier parse_type
two_parameters = refl

-- A name that is a word of the language is written as it is, and does not come back.
keyword_name :
    parse_watch_expression (make_expression_for_variable (codes "loop"))
    ≡ err nnd.Interp.Result.expected_token
unfolding parse_watch_expression eat_token eat_if peek_expect expect eat_digits_from eat_if_eq_from
    strength is_char is_binary_operator is_eof make_expression_for_variable
keyword_name = refl

-- Nor does a name with a backquote.
backquote_name :
    accepted (parse_watch_expression (make_expression_for_variable (codes "a`b"))) ≡ false
unfolding parse_watch_expression eat_token eat_if peek_expect expect eat_digits_from eat_if_eq_from
    strength is_char is_binary_operator is_eof make_expression_for_variable
backquote_name = refl

parse_expression-two_example :
    tree (
      parse_expression 5 weakest (
        ahead_of
          (record { start = 0; end = 1 })
          (basic (u 1), (add, basic (u 2)) ∷ (mul, basic (u 3)) ∷ [])))
    ≡ ok (
      4,
      (literal (basic (u 1)), [])
          ∷ (literal (basic (u 2)), [])
          ∷ (literal (basic (u 3)), [])
          ∷ (binary_operator mul, 1 ∷ 2 ∷ [])
          ∷ (binary_operator add, 0 ∷ 3 ∷ [])
          ∷ [],
    )
unfolding binary_operator_precedence strength
parse_expression-two_example =
    parse_expression-two (record { start = 0; end = 1 }) (basic (u 1)) (basic (u 2)) (basic (u 3))
      add mul

make_expression_for_variable-parsed_example :
    (s : _) × (parse_watch_expression (make_expression_for_variable (codes "a b"))
      ≡ ok (variable_expression s (codes "a b") true))
unfolding text_eq should_quote_identifier parse_ignore_case
make_expression_for_variable-parsed_example =
    make_expression_for_variable-parsed (codes "a b")
      (((refl, refl), refl), (((refl, refl), refl), (((refl, refl), refl), tt)))
      (refl, (refl, (refl, (refl, (refl, (refl, (refl, (refl, (refl, (refl, tt))))))))))
