-- ===== src/Interp/Operators.antt =====
-- The operators of src/interp.rs, before and behind an expression: reading one ends without a panic
-- and gives a node that is there, with the children it needs.
use nnd.Base.{ℕ, ◌≤◌, ◌≡◌, true, false, ◌==◌, [], some, ◌⊎◌, arith, length, inl, inr, get_elem?}
use nnd.Interp.Ahead.{size}
use nnd.Interp.Build.{Parser, update_node}
use nnd.Interp.Fields.{array_from-NodesIn}
use nnd.Interp.Forms.{Self}
use nnd.Interp.Loops.{parse_block-Reads}
use nnd.Interp.Parser.{
  parse_unary, any_frame, parse_prefix, close_parens, parse_bracket, parse_first, join,
}
use nnd.Interp.Result.{ok, Ensures, rejected, then_in}
use nnd.Interp.Signs.{Sign}
use nnd.Interp.Steps.{
  push_node-Ensures, finish_node-Ensures, node_at-Ensures, update_node-Ensures, Eaten, eat-Ensures,
}
use nnd.Interp.Syntax
use nnd.Interp.Syntax.{
  Text, Span, Ast, AstNode, LiteralValue, UnaryOperator, BinaryOperator, Precedence, weakest,
  comma_list, strongest, sub, mul, bit_and, bit_xor, index, slicify, unary_operator_precedence,
  binary_operator_precedence, as_unsigned, variable, type_cast, tuple_indexing, field, call,
  type_info, neg, borrow, dereference, array,
}
use nnd.Interp.Token.{Token, eof, char, literal, identifier, is_char}
use nnd.Interp.Tokens.{if-apply}
use nnd.Interp.Types.{Read, Reads, NodeIn-Read, Read-NodeIn}
use nnd.Interp.WellFormed.{Wf, NodeOk, NodeIn, NodesIn, Later, chain, ended, needed}
use nnd.Interp.Words.{Makes, parse_word-NodeIn}

-- A change of a node behind which the node is still there.
update_node-NodeIn :
    (i : ℕ) (g : AstNode → AstNode) (p : Parser)
    → Wf p
    → NodeIn i p
    → ((n : AstNode)
        → NodeOk (length p.ast) n
        → get_elem? p.ast i ≡ some n
        → NodeOk (length p.ast) (g n))
    → Ensures (Later NodeIn p) (then_in (update_node i g p) (λ x. ok (i, x.1)))
update_node-NodeIn i g p w h k =
    chain _ NodeIn p _ (λ x. ok (i, x.1)) (update_node-Ensures i g p w h k)
      (λ _ q x y v _. ended NodeIn i q v (omega arith))

pub join-NodeIn :
    (a : Ast) (i j : ℕ) (p : Parser)
    → Wf p
    → needed a ≤ 2
    → NodeIn i p
    → NodeIn j p
    → Ensures (Later NodeIn p) (join a i j p)
unfolding join
join-NodeIn a i j p w l h k = chain _ NodeIn p _ _ (node_at-Ensures i p w h) (λ m q x y v _.
    chain _ NodeIn q _ _ (node_at-Ensures j q v (omega arith))
      (λ n r b c u _. push_node-Ensures _ r u ((omega arith, (omega arith, tt)), omega arith)))

module _ (fuel : ℕ) (self : Self) (reads : (prec : Precedence) → Reads fuel (self prec)) where
  parse_unary-NodeIn : (s : Span) (op : UnaryOperator) → Makes fuel (parse_unary self s op)
  unfolding parse_unary
  parse_unary-NodeIn s op p w l =
      chain _ NodeIn p _ _ (reads (unary_operator_precedence op) p w l)
        (λ e q x y v h. finish_node-Ensures s _ _ q v (h.1, tt) (omega arith))

  any_frame-NodeIn :
      (e : ℕ) (s : Span) (a : Ast) (p : Parser)
      → Wf p
      → NodeIn e p
      → Ensures (Later NodeIn p) (any_frame e s a p)
  unfolding any_frame
  any_frame-NodeIn e s (variable name quoted b) p w h =
      update_node-NodeIn e _ p w h (λ n j _. (j.0, omega arith))
  any_frame-NodeIn e s _ p w h = rejected

  parse_prefix-NodeIn : (s : Span) (op : BinaryOperator) → Makes fuel (parse_prefix self s op)
  unfolding parse_prefix
  parse_prefix-NodeIn s bit_xor p w l = chain _ NodeIn p _ _ (reads strongest p w l) (λ e q x y v h.
      chain _ NodeIn q _ _ (node_at-Ensures e q v h.1)
        (λ n r a b u _. any_frame-NodeIn e s n.a r u (omega (arith, h.1))))
  parse_prefix-NodeIn s sub p w l = parse_unary-NodeIn s neg p w l
  parse_prefix-NodeIn s mul p w l = parse_unary-NodeIn s dereference p w l
  parse_prefix-NodeIn s bit_and p w l = parse_unary-NodeIn s borrow p w l
  parse_prefix-NodeIn s _ p w l = rejected

  close_parens-NodeIn :
      (e : ℕ) (s : Span) (t : Span × Token) (p : Parser)
      → Wf p
      → NodeIn e p
      → Ensures (Later NodeIn p) (close_parens e s t p)
  unfolding close_parens
  close_parens-NodeIn e s t p w h =
      if-apply (Later NodeIn p) (is_char b')' t.1) _ _ p
        (λ _. update_node-NodeIn e _ p w h (λ n j _. (j.0, j.1))) (λ _. rejected)

  parse_bracket-NodeIn : (s : Span) (c : ℕ) → Makes fuel (parse_bracket self fuel s c)
  unfolding parse_bracket
  parse_bracket-NodeIn s c p w l =
      if-apply (Later NodeIn p) (c == b'{') _ _ p
        (λ _. Read-NodeIn (size p.lex) p _ (parse_block-Reads fuel self reads p w l))
        (λ _.
          if-apply (Later NodeIn p) (c == b'(') _ _ p
            (λ _. chain _ NodeIn p _ _ (reads weakest p w l) (λ e q x y v h.
              chain _ NodeIn q _ _ (eat-Ensures q v)
                (λ t r a b u _. close_parens-NodeIn e s t r u (omega (arith, h.1)))))
            (λ _.
              if-apply (Later NodeIn p) (c == b'[') _ _ p
                (λ _.
                  chain NodesIn NodeIn p _ _
                    (array_from-NodesIn fuel self (reads comma_list) fuel (omega arith) [] p w l tt)
                    (λ children q x y v h. finish_node-Ensures s _ _ q v h (omega arith)))
                (λ _. rejected)))

  parse_first-NodeIn : (s : Span) (t : Token) → Sign t → Makes fuel (parse_first self fuel s t)
  unfolding parse_first
  parse_first-NodeIn s (literal value) g p w l = finish_node-Ensures s _ [] p w tt (omega arith)
  parse_first-NodeIn s (identifier name true) g p w l =
      finish_node-Ensures s _ [] p w tt (omega arith)
  parse_first-NodeIn s (identifier name false) g p w l =
      parse_word-NodeIn fuel self reads s name p w l
  parse_first-NodeIn s (Token.binary_operator op) g p w l = parse_prefix-NodeIn s op p w l
  parse_first-NodeIn s (Token.unary_operator Syntax.not) g p w l =
      parse_unary-NodeIn s Syntax.not p w l
  parse_first-NodeIn s (Token.unary_operator _) g p w l = cc
  parse_first-NodeIn s (char c) g p w l = parse_bracket-NodeIn s c p w l
  parse_first-NodeIn s _ g p w l = rejected

  -- Where something was eaten, or there was nothing to begin with.
  pub parse_first-Read :
      (n : ℕ) (s : Span) (t : Token) (p : Parser)
      → Sign t
      → n ≤ fuel
      → Wf p
      → Eaten n p ⊎ (t ≡ eof)
      → Ensures (Later (Read n) p) (parse_first self fuel s t p)
  unfolding parse_first
  parse_first-Read n s t p g l w (inl h) =
      NodeIn-Read n p _ h (parse_first-NodeIn s t g p w (omega arith))
  parse_first-Read n s t p g l w (inr e) = rw e rejected
