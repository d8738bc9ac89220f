-- ===== src/Interp/WellFormed.antt =====
-- Well-formed syntax trees of src/interp.rs, and the steps of the parser on them.
use nnd.Base.{
  ℕ, suc, ◌+◌, ◌≤◌, ◌<◌, ◌≡◌, Bool, true, false, List, [], ◌∷◌, ◌++◌, arith, length, length-append,
  All, All-append,
}
use nnd.Interp.Ahead.{size}
use nnd.Interp.Build.{Parser}
use nnd.Interp.Keeps.{Ensures-then_in, Ensures-mono}
use nnd.Interp.Result.{Result, ok, Ensures, holds, then_in}
use nnd.Interp.Signed.{Signed}
use nnd.Interp.Syntax.{
  Ast, AstNode, unary_operator, binary_operator, field, type_cast, pointer_type, array_type,
  tuple_indexing, struct_expression, block, while_loop, for_loop, if_else, let_variable, type_info,
  function_definition, struct_definition,
}

abbrev pub count : Bool → ℕ
count true = 1
count false = 0

-- How many children a node of each kind has at least.
abbrev pub needed : Ast → ℕ
needed (unary_operator op) = 1
needed (binary_operator op) = 2
needed (field name quoted) = 1
needed type_cast = 2
needed pointer_type = 1
needed (array_type len) = 1
needed (tuple_indexing i) = 1
needed (struct_expression names) = length names
needed block = 1
needed while_loop = 1
needed (for_loop name) = 2
needed if_else = 2
needed (let_variable name has_type) = count has_type
needed type_info = 1
needed (function_definition name args has_return) = length args + count has_return + 1
needed (struct_definition name names) = length names
needed _ = 0

abbrev pub Below : ℕ → ℕ → Type 0
Below k i = i < k

-- A node among `k` others.
abbrev pub NodeOk : ℕ → AstNode → Type 0
NodeOk k n = All (Below k) n.children × (needed n.a ≤ length n.children)

-- Every child of every node is a node, and each node has as many as its kind needs.
abbrev pub WfTree : List AstNode → Type 0
WfTree ast = All (NodeOk (length ast)) ast

pub All-Below-mono : (j k : ℕ) (is : List ℕ) → j ≤ k → All (Below j) is → All (Below k) is
All-Below-mono j k [] l h = tt
All-Below-mono j k (i ∷ is) l h = (omega (arith, h.0), All-Below-mono j k is l h.1)

All-NodeOk-mono : (j k : ℕ) (ast : List AstNode) → j ≤ k → All (NodeOk j) ast → All (NodeOk k) ast
All-NodeOk-mono j k [] l h = tt
All-NodeOk-mono j k (n ∷ ast) l h =
    ((All-Below-mono j k n.children l h.0.0, h.0.1), All-NodeOk-mono j k ast l h.1)

pub length-push : {A : Type 0} (xs : List A) (x : A) → length (xs ++ x ∷ []) ≡ suc (length xs)
length-push xs x = omega (arith, length-append xs (x ∷ []))

pub WfTree-push :
    (ast : List AstNode) (n : AstNode) → WfTree ast → NodeOk (length ast) n → WfTree (ast ++ n ∷ [])
WfTree-push ast n w h =
    let l = length-push ast n in
    All-append (NodeOk (length (ast ++ n ∷ []))) ast (n ∷ [])
      (All-NodeOk-mono (length ast) _ ast (omega (arith, l)) w)
      ((All-Below-mono (length ast) _ n.children (omega (arith, l)) h.0, h.1), tt)

-- The tree is well formed, and no token ahead is an operator that the parser does not know.
abbrev pub Wf : Parser → Type 0
Wf p = WfTree p.ast × Signed p.lex

-- No more of the text is left than before, no fewer nodes are there, and they are well formed.
abbrev pub After : Parser → Parser → Type 0
After p q = (size q.lex ≤ size p.lex) × (length p.ast ≤ length q.ast) × Wf q

abbrev pub Later : {A : Type 0} → (A → Parser → Type 0) → Parser → A × Parser → Type 0
Later P p x = After p x.1 × P x.0 x.1

-- A node of those there are.
abbrev pub NodeIn : ℕ → Parser → Type 0
NodeIn i q = i < length q.ast

abbrev pub NodesIn : List ℕ → Parser → Type 0
NodesIn is q = All (Below (length q.ast)) is

pub chain :
    {A B : Type 0} (P : A → Parser → Type 0) (Q : B → Parser → Type 0) (p : Parser)
    (r : Result (A × Parser)) (f : A × Parser → Result (B × Parser))
    → Ensures (Later P p) r
    → ((a : A) (q : Parser)
        → size q.lex ≤ size p.lex
        → length p.ast ≤ length q.ast
        → Wf q
        → P a q
        → Ensures (Later Q q) (f (a, q)))
    → Ensures (Later Q p) (then_in r f)
chain P Q p r f h k = Ensures-then_in (Later P p) (Later Q p) r f h (λ (a, q) ((x, y, w), j).
    Ensures-mono (Later Q q) (Later Q p) (f (a, q)) (k a q x y w j)
      (λ (b, s) ((u, v, z), i). ((omega arith, omega arith, z), i)))

pub ended :
    {A : Type 0} (P : A → Parser → Type 0) (a : A) (p : Parser)
    → Wf p
    → P a p
    → Ensures (Later P p) (ok (a, p))
ended P a p w h = holds ((omega arith, omega arith, w), h)
