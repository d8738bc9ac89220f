-- ===== src/Interp/Behind.antt =====
-- What stands behind an expression in src/interp.rs, operators, calls, indices and fields: reading it
-- ends without a panic, takes some of the text, and gives a node that is there.
use nnd.Base.{
  ℕ, zero, suc, ◌≤◌, ◌<◌, ◌≡◌, refl, some-injective, sym, ◌∙◌, subst, false, ◌==◌, List, [], ◌∷◌,
  Option, none, some, arith, length, inl, inr, codes, All-append, get_elem?,
}
use nnd.Interp.Ahead.{size}
use nnd.Interp.Build.{Parser, update_node}
use nnd.Interp.Forms.{Self}
use nnd.Interp.Keeps.{Ensures-mono}
use nnd.Interp.Loops.{Round}
use nnd.Interp.Operators.{join-NodeIn}
use nnd.Interp.Parser.{
  parse_binary, add_child, argument_next, arguments_from, call_inside, call_node, parse_call,
  parse_index, field_literal, field_token, parse_field, parse_cast,
}
use nnd.Interp.Result.{err, M, Ensures, rejected, pure, fail, expected_token}
use nnd.Interp.Steps.{
  push_node-Ensures, node_at-Ensures, update_node-Ensures, Any, peek-Ensures, eat-Ensures,
  expect-Eaten, comma_or-Any,
}
use nnd.Interp.Syntax.{
  Text, Span, Ast, AstNode, BinaryOperator, Precedence, weakest, comma_list, slicify,
  binary_operator_precedence, as_unsigned, variable, type_cast, tuple_indexing, field,
}
use nnd.Interp.Token.{Token, eof, char, literal, identifier, is_char, text_eq}
use nnd.Interp.Tokens.{if-apply}
use nnd.Interp.Types.{Read, Reads, NodeIn-Read, parse_type-Reads}
use nnd.Interp.WellFormed.{
  Wf, Below, NodeOk, NodeIn, NodesIn, Later, chain, ended, needed, length-push,
}

-- One more child of a node, which then has a child.
add_child-Ensures :
    (i e : ℕ) (p : Parser)
    → Wf p
    → NodeIn i p
    → NodeIn e p
    → Ensures
        (Later (λ u q. (n : AstNode) × (get_elem? q.ast i ≡ some n) × (1 ≤ length n.children)) p)
        (add_child i e p)
unfolding add_child
add_child-Ensures i e p w h k =
    Ensures-mono _ _ _
      (update_node-Ensures i _ p w h (λ n j _. (
        All-append (Below (length p.ast)) n.children (e ∷ []) j.0 (k, tt),
        omega (arith, j.1, length-push n.children e),
      )))
      (λ x (a, (n, q)). (a, (_, q, omega (arith, length-push n.children e))))

-- A change that leaves the children of a node alone.
pub update_node-Any :
    (i : ℕ) (g : AstNode → AstNode) (p : Parser)
    → Wf p
    → NodeIn i p
    → ((n : AstNode)
        → NodeOk (length p.ast) n
        → get_elem? p.ast i ≡ some n
        → NodeOk (length p.ast) (g n))
    → Ensures (Later Any p) (update_node i g p)
update_node-Any i g p w h k =
    Ensures-mono _ _ _ (update_node-Ensures i g p w h k) (λ x j. (j.0, tt))

-- From a node there is, a node made of more of what was left.
abbrev pub Extends : ℕ → (ℕ → M Parser ℕ) → Type 0
Extends fuel m =
    (i : ℕ) (p : Parser)
    → Wf p
    → size p.lex < fuel
    → NodeIn i p
    → Ensures (Later (Read (size p.lex)) p) (m i p)

module _ (fuel : ℕ) (self : Self) (reads : (prec : Precedence) → Reads fuel (self prec)) where
  pub parse_binary-Extends : (op : BinaryOperator) → Extends fuel (λ i. parse_binary self i op)
  unfolding parse_binary
  parse_binary-Extends op i p w l h =
      chain _ (Read (size p.lex)) p _ _ (eat-Ensures p w) (λ _ q x y v _.
        chain _ (Read (size p.lex)) q _ _ (reads (binary_operator_precedence op) q v (omega arith))
          (λ rhs r a b u j.
            NodeIn-Read (size p.lex) r _ (omega (arith, j.0))
              (join-NodeIn _ i rhs r u (omega arith) (omega arith) (omega (arith, j.1)))))

  pub parse_index-Extends : Extends fuel (parse_index self)
  unfolding parse_index is_char
  parse_index-Extends i p w l h =
      chain _ (Read (size p.lex)) p _ _ (eat-Ensures p w) (λ _ q x y v _.
        chain _ (Read (size p.lex)) q _ _ (reads weakest q v (omega arith)) (λ rhs r a b u j.
          chain _ (Read (size p.lex)) r _ _ (expect-Eaten (is_char b']') r u refl) (λ _ s c d z _.
            NodeIn-Read (size p.lex) s _ (omega (arith, j.0))
              (join-NodeIn _ i rhs s z (omega arith) (omega arith) (omega (arith, j.1))))))

  pub parse_cast-Extends : Extends fuel (parse_cast fuel)
  unfolding parse_cast
  parse_cast-Extends i p w l h = chain _ (Read (size p.lex)) p _ _ (eat-Ensures p w) (λ _ q x y v _.
      chain _ (Read (size p.lex)) q _ _ (parse_type-Reads fuel q v (omega arith)) (λ type r a b u j.
        NodeIn-Read (size p.lex) r _ (omega (arith, j.0))
          (join-NodeIn type_cast i type r u (omega arith) (omega arith) (omega (arith, j.1)))))

  argument_next-Any :
      (n i : ℕ) (again : M Parser (Unit {0})) (t : Span × Token) (p : Parser)
      → Round {A = Unit {0}} (λ _ q. NodeIn i q) Any n (λ _. again)
      → Wf p
      → size p.lex < suc n
      → size p.lex < fuel
      → NodeIn i p
      → Ensures (Later Any p) (argument_next again self i t p)
  unfolding argument_next
  argument_next-Any n i again t p k w l f h =
      if-apply (Later Any p) (is_char b')' t.1) _ _ p (λ _. ended Any tt p w tt)
        (λ _. chain _ Any p _ _ (reads comma_list p w f) (λ e q x y v j.
          chain _ Any q _ _ (add_child-Ensures i e q v (omega arith) (j.1)) (λ _ r a b u _.
            chain Any Any r _ _ (comma_or-Any b')' r u)
              (λ _ s c d z _. k tt s z (omega (arith, j.0)) (omega arith)))))

  arguments_from-Any :
      (n i : ℕ)
      → n ≤ fuel
      → Round {A = Unit {0}} (λ _ q. NodeIn i q) Any n (λ _. arguments_from self n i)
  unfolding arguments_from
  arguments_from-Any zero i d _ p w l h = absurd (omega arith)
  arguments_from-Any (suc n) i d _ p w l h =
      let again = arguments_from-Any n i (omega arith) in
      chain Any Any p _ _ (peek-Ensures p w) (λ t q x y v _.
        argument_next-Any n i (arguments_from self n i) t q again v (omega arith) (omega arith)
          (omega arith))

  call_inside-Any :
      (i : ℕ) (name : Text) (p : Parser)
      → Wf p
      → size p.lex < fuel
      → NodeIn i p
      → Ensures (Later Any p) (call_inside self fuel i name p)
  unfolding call_inside
  call_inside-Any i name p w l h =
      if-apply (Later Any p) (text_eq name (codes "type")) _ _ p
        (λ _. chain _ Any p _ _ (parse_type-Reads fuel p w l) (λ t q x y v j.
          chain _ Any q _ _ (add_child-Ensures i t q v (omega arith) (j.1)) (λ _ r a b u (n, e, m).
            update_node-Any i _ r u (omega arith) (λ o g f.
              (g.0, subst (λ z. 1 ≤ length z.children) (some-injective _ _ (sym e ∙ f)) m)))))
        (λ _.
          chain Any Any p _ _ (arguments_from-Any fuel i (omega arith) tt p w l h)
            (λ _ q x y v _. update_node-Any i _ q v (omega arith) (λ o g _. (g.0, omega arith))))

  call_node-Read :
      (i : ℕ) (a : Ast) (p : Parser)
      → Wf p
      → size p.lex < fuel
      → NodeIn i p
      → Ensures (Later (Read (size p.lex)) p) (call_node self fuel i a p)
  unfolding call_node is_char
  call_node-Read i (variable name false false) p w l h =
      chain Any (Read (size p.lex)) p _ _ (call_inside-Any i name p w l h) (λ _ q x y v _.
        chain _ (Read (size p.lex)) q _ _ (expect-Eaten (is_char b')') q v refl) (λ t r a b u j.
          chain Any (Read (size p.lex)) r _ _ (update_node-Any i _ r u (omega arith) (λ o g _. g))
            (λ _ s c d z _. ended (Read (size p.lex)) i s z (omega (arith, j.0), omega arith))))
  call_node-Read i _ p w l h = rejected

  pub parse_call-Extends : Extends fuel (parse_call self fuel)
  unfolding parse_call
  parse_call-Extends i p w l h = chain _ (Read (size p.lex)) p _ _ (eat-Ensures p w) (λ _ q x y v _.
      chain _ (Read (size p.lex)) q _ _ (node_at-Ensures i q v (omega arith)) (λ n r a b u _.
        Ensures-mono _ _ _ (call_node-Read i n.a r u (omega arith) (omega arith))
          (λ e j. (j.0, (omega (arith, j.1.0), j.1.1)))))

  -- What a field adds has the children it needs, with the node before the dot.
  field_token-NodesIn :
      (t : Token) (p : Parser)
      → Wf p
      → size p.lex < fuel
      → Ensures
          (Later (λ r q. NodesIn r.1 q × (needed r.0 ≤ suc (length r.1))) p)
          (field_token self t p)
  unfolding field_token field_literal is_char
  field_token-NodesIn (identifier s quoted) p w l =
      ended _ (field s quoted, []) p w (tt, omega arith)
  field_token-NodesIn (literal value) p w l = go (as_unsigned value)
    where
      go :
          (o : Option ℕ)
          → Ensures (Later (λ r q. NodesIn r.1 q × (needed r.0 ≤ suc (length r.1))) p) (
              (elim o as (λ _. M Parser (Ast × List ℕ)) [
                | none ↦ fail expected_token
                | some n ↦ pure (tuple_indexing n, [])
              ])
                p)
      go none = rejected
      go (some n) = ended _ (tuple_indexing n, []) p w (tt, omega arith)
  field_token-NodesIn (char c) p w l =
      if-apply (Later (λ r q. NodesIn r.1 q × (needed r.0 ≤ suc (length r.1))) p) (c == b'[') _ _ p
        (λ _. chain _ _ p _ _ (reads weakest p w l) (λ e q x y v j.
          chain _ _ q _ _ (expect-Eaten (is_char b']') q v refl) (λ _ r a b u _.
            ended _ (Ast.binary_operator slicify, e ∷ []) r u
              ((omega (arith, j.1), tt), omega arith))))
        (λ _. rejected)
  field_token-NodesIn _ p w l = rejected

  field_rejected : (t : Token) (p : Parser) → t ≡ eof → field_token self t p ≡ err expected_token
  unfolding field_token
  field_rejected t p e = rw e refl

  pub parse_field-Extends : Extends fuel (parse_field self)
  unfolding parse_field
  parse_field-Extends i p w l h =
      chain _ (Read (size p.lex)) p _ _ (eat-Ensures p w) (λ _ q x y v _.
        chain _ (Read (size p.lex)) q _ _ (eat-Ensures q v) (λ t r a b u j.
          chain _ (Read (size p.lex)) r _ _ (node_at-Ensures i r u (omega arith)) (λ n s c d z _.
            elim j [
              | inl k ↦
                  chain _ (Read (size p.lex)) s _ _ (field_token-NodesIn t.1 s z (omega arith))
                    (λ new o f g y_o m.
                      NodeIn-Read (size p.lex) o _ (omega (arith, k))
                        (push_node-Ensures _ o y_o ((omega arith, m.0), m.1)))
              | inr e ↦ rw (field_rejected t.1 s e) rejected
            ])))
