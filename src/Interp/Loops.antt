-- ===== src/Interp/Loops.antt =====
-- The lists in the syntax of src/interp.rs, in braces, brackets and parentheses: each loop over one
-- ends without a panic and gives nodes that are there.
use nnd.Base.{
  ℕ, zero, suc, ◌≤◌, ◌<◌, ◌≡◌, refl, false, ◌==◌, List, [], ◌∷◌, ◌++◌, Option, none, some, arith,
  length, All-append,
}
use nnd.Interp.Ahead.{size}
use nnd.Interp.Build.{Parser}
use nnd.Interp.Forms.{Self, Named, block_next, block_item, block_from, block_node, parse_block}
use nnd.Interp.Result.{ok, M, Ensures, rejected}
use nnd.Interp.Steps.{
  finish_node-Ensures, push_node-Ensures, eat-Ensures, expect-Eaten, eat_if-EatenIf,
}
use nnd.Interp.Syntax.{Text, Span, tuple, block, weakest}
use nnd.Interp.Token.{Token, char, is_char}
use nnd.Interp.Tokens.{if-apply}
use nnd.Interp.Types.{Read, Reads, NodeIn-Read}
use nnd.Interp.WellFormed.{
  Wf, Below, NodeIn, NodesIn, Later, chain, ended, All-Below-mono, length-push,
}

-- One more node, and more nodes in the tree.
pub NodesIn-append :
    (children : List ℕ) (i : ℕ) (p q : Parser)
    → NodesIn children p
    → length p.ast ≤ length q.ast
    → NodeIn i q
    → NodesIn (children ++ i ∷ []) q
NodesIn-append children i p q h l k =
    All-append (Below (length q.ast)) children (i ∷ []) (All-Below-mono _ _ children l h) (k, tt)

-- From what satisfies `P`, where less than `n` is left, the round gives what satisfies `Q`.
abbrev pub Round :
    {A B : Type 0} → (A → Parser → Type 0) → (B → Parser → Type 0) → ℕ → (A → M Parser B) → Type 0
Round {A} P Q n m =
    (a : A) (p : Parser) → Wf p → size p.lex < n → P a p → Ensures (Later Q p) (m a p)

abbrev pub Listed : List ℕ → Parser → Type 0
Listed children q = NodesIn children q × (1 ≤ length children)

-- As many nodes as names.
abbrev pub NamedIn : Named → Parser → Type 0
NamedIn fields q = NodesIn fields.1 q × (length fields.0 ≡ length fields.1)

pub NamedIn-append :
    (fields : Named) (s : Text) (i : ℕ) (p q : Parser)
    → NamedIn fields p
    → length p.ast ≤ length q.ast
    → NodeIn i q
    → NamedIn (fields.0 ++ s ∷ [], fields.1 ++ i ∷ []) q
NamedIn-append fields s i p q h l k = (
  NodesIn-append fields.1 i p q h.0 l k,
  omega (arith, h.1, length-push fields.0 s, length-push fields.1 i),
)

module _ (fuel : ℕ) (self : Self) (reads : (prec : _) → Reads fuel (self prec)) where
  block_next-Listed :
      (n : ℕ) (again : List ℕ → M Parser (List ℕ)) (children : List ℕ) (t : Token) (p : Parser)
      → Round NodesIn Listed n again
      → Wf p
      → size p.lex < n
      → Listed children p
      → Ensures (Later Listed p) (block_next again children t p)
  unfolding block_next
  block_next-Listed n again children (char c) p k w l h =
      if-apply (Later Listed p) (c == b';') _ _ p (λ _. k children p w l h.0)
        (λ _.
          if-apply (Later Listed p) (c == b'}') _ _ p (λ _. ended Listed children p w h)
            (λ _. rejected))
  block_next-Listed n again children _ p k w l h = rejected

  block_item-Listed :
      (n : ℕ) (again : List ℕ → M Parser (List ℕ)) (children : List ℕ) (t : Option (Span × Token))
      (p : Parser)
      → Round NodesIn Listed n again
      → Wf p
      → size p.lex < suc n
      → size p.lex < fuel
      → NodesIn children p
      → Ensures (Later Listed p) (block_item again self children t p)
  unfolding block_item
  block_item-Listed n again children (some u) p k w l f h =
      chain NodeIn Listed p _ (λ x. ok (children ++ x.0 ∷ [], x.1))
        (push_node-Ensures (record { span = u.0; a = tuple; children = []; has_parens = false }) p w
          (tt, omega arith))
        (λ i q x y v j.
          ended Listed (children ++ i ∷ []) q v
            (NodesIn-append children i p q h y j, omega (arith, length-push children i)))
  block_item-Listed n again children none p k w l f h =
      chain _ Listed p _ _ (reads weakest p w f) (λ i q x y v j.
        chain _ Listed q _ _ (eat-Ensures q v) (λ t r a b u z.
          block_next-Listed n again (children ++ i ∷ []) t.1 r k u (omega (arith, j.0)) (
            NodesIn-append children i p r h (omega arith) (omega (arith, j.1)),
            omega (arith, length-push children i),
          )))

  block_from-Listed : (n : ℕ) → n ≤ fuel → Round NodesIn Listed n (block_from self n)
  unfolding block_from is_char
  block_from-Listed zero d children p w l h = absurd (omega arith)
  block_from-Listed (suc n) d children p w l h =
      let again = block_from-Listed n (omega arith) in
      chain _ Listed p _ _ (eat_if-EatenIf (is_char b'}') p w refl) (λ t q x y v j.
        block_item-Listed n (block_from self n) children t q again v (omega arith) (omega arith)
          (All-Below-mono _ _ children y h))

  block_node-NodeIn :
      (s : Span) (children : List ℕ) (p : Parser)
      → Wf p
      → Listed children p
      → Ensures (Later NodeIn p) (block_node s children p)
  unfolding block_node
  block_node-NodeIn s [] p w h = absurd (omega (arith, h.1))
  block_node-NodeIn s (e ∷ es) p w h = finish_node-Ensures s block (e ∷ es) p w h.0 (omega arith)

  pub parse_block-Reads : Reads fuel (parse_block self fuel)
  unfolding parse_block is_char
  parse_block-Reads p w l =
      chain _ (Read (size p.lex)) p _ _ (expect-Eaten (is_char b'{') p w refl) (λ t q x y v j.
        chain Listed (Read (size p.lex)) q _ _
          (block_from-Listed fuel (omega arith) [] q v (omega arith) tt)
          (λ children r a b u h.
            NodeIn-Read (size p.lex) r _ (omega (arith, j.0))
              (block_node-NodeIn t.0 children r u h)))
