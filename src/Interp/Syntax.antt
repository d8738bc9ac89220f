-- ===== src/Interp/Syntax.antt =====
-- The syntax trees of src/interp.rs. A text is the list of its characters, by their code points.
use nnd.Base.{ℕ, Bool, leb, List, Option, none, some}

abbrev pub Text : Type 0
Text = List ℕ

-- What the value of a floating-point literal is computed from: the digits before and behind the
-- dot, and the exponent as an `i32` with its sign apart. `exp_radix` is 0 where there is none.
pub record FloatLiteral : Type 0 where
  pub radix : ℕ
  pub int_s : Text
  pub frac_s : Text
  pub exp_radix : ℕ
  pub exp_negative : Bool
  pub exp : ℕ

-- `I` is no literal's value.
pub data BasicValue : Type 0 where
  u : ℕ → BasicValue
  f : FloatLiteral → BasicValue

pub data LiteralValue : Type 0 where
  basic : BasicValue → LiteralValue
  char : ℕ → LiteralValue
  string : Text → LiteralValue

unfoldable pub as_unsigned : LiteralValue → Option ℕ
as_unsigned (basic (u x)) = some x
as_unsigned _ = none

pub data UnaryOperator : Type 0 where
  neg not borrow dereference : UnaryOperator

pub data BinaryOperator : Type 0 where
  add sub mul div rem bit_and bit_or bit_xor shl shr : BinaryOperator
  eq ne gt lt ge le lazy_and lazy_or : BinaryOperator
  assign add_assign sub_assign mul_assign div_assign rem_assign : BinaryOperator
  and_assign or_assign xor_assign shl_assign shr_assign : BinaryOperator
  range index slicify comma : BinaryOperator

-- The place of an operator in its type, by which they are compared.
unfoldable pub operator_code : BinaryOperator → ℕ
operator_code add = 0
operator_code sub = 1
operator_code mul = 2
operator_code div = 3
operator_code rem = 4
operator_code bit_and = 5
operator_code bit_or = 6
operator_code bit_xor = 7
operator_code shl = 8
operator_code shr = 9
operator_code eq = 10
operator_code ne = 11
operator_code gt = 12
operator_code lt = 13
operator_code ge = 14
operator_code le = 15
operator_code lazy_and = 16
operator_code lazy_or = 17
operator_code assign = 18
operator_code add_assign = 19
operator_code sub_assign = 20
operator_code mul_assign = 21
operator_code div_assign = 22
operator_code rem_assign = 23
operator_code and_assign = 24
operator_code or_assign = 25
operator_code xor_assign = 26
operator_code shl_assign = 27
operator_code shr_assign = 28
operator_code range = 29
operator_code index = 30
operator_code slicify = 31
operator_code comma = 32

-- `Let` is `let_variable`, `If` is `if_else`; the words of the language carry `_expression`.
pub data Ast : Type 0 where
  literal : LiteralValue → Ast
  variable : Text → Bool → Bool → Ast
  unary_operator : UnaryOperator → Ast
  binary_operator : BinaryOperator → Ast
  field : Text → Bool → Ast
  type_cast : Ast
  named_type : Text → Bool → Ast
  pointer_type : Ast
  array_type : Option ℕ → Ast
  array tuple : Ast
  tuple_indexing : ℕ → Ast
  struct_expression : List Text → Ast
  call : Text → Ast
  continue_expression break_expression return_expression : Ast
  block while_loop : Ast
  for_loop : Text → Ast
  if_else : Ast
  let_variable : Text → Bool → Ast
  type_info : Ast
  function_definition : Text → List Text → Bool → Ast
  struct_definition : Text → List Text → Ast

pub record Span : Type 0 where
  pub start : ℕ
  pub end : ℕ

-- `has_parens` is the one flag.
pub record AstNode : Type 0 where
  pub span : Span
  pub a : Ast
  pub children : List ℕ
  pub has_parens : Bool

pub record Expression : Type 0 where
  pub ast : List AstNode
  pub root : ℕ

pub data Precedence : Type 0 where
  weakest returning comma_list assignment ranging lazy_or_chain lazy_and_chain cmp or_bits
        xor_bits :
      Precedence
  and_bits shift adding multiplying casting unary call_or_index field_access strongest : Precedence

-- The place of a precedence in its type, by which they are ordered.
unfoldable pub strength : Precedence → ℕ
strength weakest = 0
strength returning = 1
strength comma_list = 2
strength assignment = 3
strength ranging = 4
strength lazy_or_chain = 5
strength lazy_and_chain = 6
strength cmp = 7
strength or_bits = 8
strength xor_bits = 9
strength and_bits = 10
strength shift = 11
strength adding = 12
strength multiplying = 13
strength casting = 14
strength unary = 15
strength call_or_index = 16
strength field_access = 17
strength strongest = 18

-- `a >= b`
abbrev pub at_least : Precedence → Precedence → Bool
at_least a b = leb (strength b) (strength a)

unfoldable pub binary_operator_precedence : BinaryOperator → Precedence
binary_operator_precedence add = adding
binary_operator_precedence sub = adding
binary_operator_precedence mul = multiplying
binary_operator_precedence div = multiplying
binary_operator_precedence rem = multiplying
binary_operator_precedence bit_and = and_bits
binary_operator_precedence bit_or = or_bits
binary_operator_precedence bit_xor = xor_bits
binary_operator_precedence shl = shift
binary_operator_precedence shr = shift
binary_operator_precedence eq = cmp
binary_operator_precedence ne = cmp
binary_operator_precedence gt = cmp
binary_operator_precedence lt = cmp
binary_operator_precedence ge = cmp
binary_operator_precedence le = cmp
binary_operator_precedence lazy_and = lazy_and_chain
binary_operator_precedence lazy_or = lazy_or_chain
binary_operator_precedence range = ranging
binary_operator_precedence index = call_or_index
binary_operator_precedence slicify = field_access
binary_operator_precedence comma = comma_list
binary_operator_precedence _ = assignment

unfoldable pub unary_operator_precedence : UnaryOperator → Precedence
unary_operator_precedence op = unary
