-- ===== src/Interp/Steps.antt =====
-- What each step of the parser of src/interp.rs does to a well-formed tree: none of them panics.
use nnd.Base.{
  ℕ, suc, ◌≤◌, ◌≡◌, refl, sym, Bool, true, false, List, Option, none, some, ◌⊎◌, arith, length,
  length-set, inl, inr, subst, All, All-set, All-get, get_elem?, get_elem?_found,
  get_elem?-set_self, set,
}
use nnd.Interp.Ahead.{size}
use nnd.Interp.Build.{
  Parser, peek, eat, eat_if, peek_expect, expect, push_node, finish_node, node_at, update_node,
  comma_or,
}
use nnd.Interp.Keeps.{Ensures-then_in}
use nnd.Interp.Lexer.{Lexer, eat_token}
use nnd.Interp.Result.{Result, ok, err, panicked, stuck, M, Ensures, holds, then_in}
use nnd.Interp.Signed.{
  Signed, SignedToken, peek_token-Signed, eat_token-Signed, eat_if-Signed, peek_expect-Signed,
  expect-Signed,
}
use nnd.Interp.Signs.{When, Sign, Ensures-both}
use nnd.Interp.Syntax.{Span, Ast, AstNode, comma}
use nnd.Interp.Taking.{
  peek_token-Ensures, eat_token-Ensures, Ate, eat_if-Ensures, AteIf, peek_expect-Ensures,
  expect-Ensures,
}
use nnd.Interp.Token.{
  Token, eof, identifier, is_binary_operator, is_char, is_identifier, into_identifier,
}
use nnd.Interp.WellFormed.{
  NodeOk, Wf, WfTree-push, length-push, needed, NodeIn, NodesIn, Later, chain, ended,
}

pub push_node-Ensures :
    (n : AstNode) (p : Parser)
    → Wf p
    → NodeOk (length p.ast) n
    → Ensures (Later NodeIn p) (push_node n p)
unfolding push_node
push_node-Ensures n p w h =
    let l = length-push p.ast n in
    holds ((omega arith, omega (arith, l), (WfTree-push p.ast n w.0 h, w.1)), omega (arith, l))

pub finish_node-Ensures :
    (s : Span) (a : Ast) (children : List ℕ) (p : Parser)
    → Wf p
    → NodesIn children p
    → needed a ≤ length children
    → Ensures (Later NodeIn p) (finish_node s a children p)
unfolding finish_node
finish_node-Ensures s a children p w h l = push_node-Ensures _ p w (h, l)

-- The node at an index that is in range.
pub node_at-Ensures :
    (i : ℕ) (p : Parser)
    → Wf p
    → NodeIn i p
    → Ensures (Later (λ n q. (q ≡ p) × (get_elem? p.ast i ≡ some n)) p) (node_at i p)
unfolding node_at
node_at-Ensures i p w h =
    let (n, e) = get_elem?_found p.ast i h in
    rw e (holds ((omega arith, omega arith, w), (refl, refl)))

-- A change of a node that keeps what it needs.
pub update_node-Ensures :
    (i : ℕ) (g : AstNode → AstNode) (p : Parser)
    → Wf p
    → NodeIn i p
    → ((n : AstNode)
        → NodeOk (length p.ast) n
        → get_elem? p.ast i ≡ some n
        → NodeOk (length p.ast) (g n))
    → Ensures
        (Later (λ u q. (n : AstNode) × (get_elem? q.ast i ≡ some (g n))) p)
        (update_node i g p)
unfolding update_node node_at
update_node-Ensures i g p w h k =
    let (n, e) = get_elem?_found p.ast i h in
    let l = length-set p.ast i (g n) in
    rw e (
      holds (
        (
          omega arith,
          omega (arith, l),
          (
            subst (λ z. All (NodeOk z) (set p.ast i (g n))) (sym l)
                (All-set (NodeOk (length p.ast)) p.ast i (g n) w.0
                  (k n (All-get (NodeOk (length p.ast)) p.ast i w.0 e) e)),
            w.1,
          ),
        ),
        (n, get_elem?-set_self p.ast i (g n) h),
      ))

SignedToken-Signed :
    (r : Result ((Span × Token) × Lexer)) → When SignedToken r → When (λ x. Signed x.1) r
SignedToken-Signed (ok x) h = h.1
SignedToken-Signed (err e) h = tt
SignedToken-Signed panicked h = tt
SignedToken-Signed stuck h = tt

-- The steps of the lexer leave the nodes alone.
lexed-Ensures :
    {A : Type 0} (P : A × Lexer → Type 0) (Q : A → Parser → Type 0) (r : Result (A × Lexer))
    (p : Parser)
    → Wf p
    → Ensures P r
    → When (λ x. Signed x.1) r
    → ((a : A) (l : Lexer) → P (a, l) → (size l ≤ size p.lex) × Q a (record p { lex = l }))
    → Ensures (Later Q p) (then_in r (λ x. ok (x.0, record p { lex = x.1 })))
lexed-Ensures P Q r p w h g k =
    Ensures-then_in (λ x. P x × Signed x.1) (Later Q p) r _ (Ensures-both P (λ x. Signed x.1) r h g)
      (λ (a, l) j. let x = k a l j.0 in holds ((x.0, omega arith, (w.0, j.1)), x.1))

-- Something is eaten of what was left.
abbrev pub Eaten : ℕ → Parser → Type 0
Eaten n q = suc (size q.lex) ≤ n

abbrev pub Any : {A : Type 0} → A → Parser → Type 0
Any a q = Unit

pub peek-Ensures : (p : Parser) → Wf p → Ensures (Later Any p) (peek p)
peek-Ensures p w =
    lexed-Ensures _ Any _ p w (peek_token-Ensures p.lex)
      (SignedToken-Signed _ (peek_token-Signed p.lex w.1)) (λ a l j. (j.0, tt))

pub eat-Ensures :
    (p : Parser) → Wf p → Ensures (Later (λ t q. Eaten (size p.lex) q ⊎ (t.1 ≡ eof)) p) (eat p)
eat-Ensures p w =
    lexed-Ensures _ _ _ p w (eat_token-Ensures p.lex)
      (SignedToken-Signed _ (eat_token-Signed p.lex w.1))
      (λ a l j. elim j [ inl x ↦ (omega (arith, x), inl x) | inr x ↦ (x.1, inr x.0) ])

-- And it is no sign that the parser does not know.
pub eat-Sign :
    (p : Parser)
    → Wf p
    → Ensures (Later (λ t q. (Eaten (size p.lex) q ⊎ (t.1 ≡ eof)) × Sign t.1) p) (eat p)
eat-Sign p w =
    let P : Span × Token → Parser → Type 0 =
      λ t q. (Eaten (size p.lex) q ⊎ (t.1 ≡ eof)) × Sign t.1 in
    Ensures-then_in (λ x. Ate (size p.lex) x × SignedToken x) (Later P p) (eat_token 1 p.lex) _
      (Ensures-both (Ate (size p.lex)) SignedToken (eat_token 1 p.lex) (eat_token-Ensures p.lex)
        (eat_token-Signed p.lex w.1))
      (λ (t, l) (h, (s, j)). elim h [
        | inl x ↦ holds ((omega (arith, x), omega arith, (w.0, j)), (inl x, s))
        | inr x ↦ holds ((x.1, omega arith, (w.0, j)), (inr x.0, s))
      ])

-- What an optional token tells: where it is there, something was eaten.
abbrev pub EatenIf : ℕ → Option (Span × Token) → Parser → Type 0
EatenIf n none q = Unit
EatenIf n (some t) q = suc (size q.lex) ≤ n

pub eat_if-EatenIf :
    (test : Token → Bool) (p : Parser)
    → Wf p
    → test eof ≡ false
    → Ensures (Later (EatenIf (size p.lex)) p) (eat_if test p)
eat_if-EatenIf test p w f =
    lexed-Ensures _ _ _ p w (eat_if-Ensures test p.lex f) (eat_if-Signed test p.lex w.1) go
  where
    go :
        (a : Option (Span × Token)) (l : Lexer)
        → AteIf (size p.lex) (a, l)
        → (size l ≤ size p.lex) × EatenIf (size p.lex) a (record p { lex = l })
    go none l j = (j, tt)
    go (some t) l j = (omega (arith, j), j)

pub peek_expect-Any :
    (test : Token → Bool) (p : Parser) → Wf p → Ensures (Later Any p) (peek_expect test p)
peek_expect-Any test p w =
    lexed-Ensures _ Any _ p w (peek_expect-Ensures test p.lex)
      (SignedToken-Signed _ (peek_expect-Signed test p.lex w.1)) (λ a l j. (j.0.0, tt))

pub expect-Eaten :
    (test : Token → Bool) (p : Parser)
    → Wf p
    → test eof ≡ false
    → Ensures (Later (λ t q. Eaten (size p.lex) q × (test t.1 ≡ true)) p) (expect test p)
expect-Eaten test p w f =
    lexed-Ensures _ _ _ p w (expect-Ensures test p.lex f)
      (SignedToken-Signed _ (expect-Signed test p.lex w.1)) (λ a l j. (omega (arith, j.0), j))

pub into_identifier-Any :
    (t : Token) (p : Parser)
    → Wf p
    → is_identifier t ≡ true
    → Ensures (Later Any p) (into_identifier t p)
unfolding is_identifier into_identifier
into_identifier-Any (identifier s quoted) p w e = holds ((omega arith, omega arith, w), tt)
into_identifier-Any _ p w e = cc

pub comma_or-Any : (c : ℕ) (p : Parser) → Wf p → Ensures (Later Any p) (comma_or c p)
unfolding comma_or is_binary_operator
comma_or-Any c p w =
    chain (EatenIf (size p.lex)) Any p _ _ (eat_if-EatenIf (is_binary_operator comma) p w refl)
      (λ q r l n v h.
        elim q
          as (λ q. Ensures (Later Any r) (
            elim q as (λ _. M Parser (Unit {0})) [
              | none ↦ (λ s. then_in (peek_expect (is_char c) s) (λ x. ok (tt, x.1)))
              | some t ↦ (λ s. ok (tt, s))
            ]
              r)) [
                | none ↦
                    chain Any Any r _ _ (peek_expect-Any (is_char c) r v)
                      (λ a s k m u j. ended Any tt s u tt)
                | some t ↦ ended Any tt r v tt
              ])
