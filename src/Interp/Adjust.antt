-- ===== src/Interp/Adjust.antt =====
-- `adjust_expression_for_appending_child_path` of src/interp.rs on any text, against the syntax tree
-- that the parser gives for it.
use nnd.Base.{ℕ, ◌≡◌, true, false, List, [], ◌∷◌, ◌++◌, ◌⊎◌, some, get_elem?}
use nnd.Interp.Result.{Result, ok, err}
use nnd.Interp.Syntax.{Text, Ast, AstNode, Expression, variable, binary_operator, assign}
use nnd.Interp.Watch.{needs_parens}

-- The node at the root, or at another index.
abbrev pub NodeAt : List AstNode → ℕ → AstNode → Type 0
NodeAt ast i n = get_elem? ast i ≡ some n

-- What an assignment to a node is adjusted to: the name that is assigned, or the text in
-- parentheses.
abbrev pub AssignedTo : Text → Ast → Text → Type 0
AssignedTo s (variable name false false) t = t ≡ name
AssignedTo s _ t = t ≡ b'(' ∷ (s ++ b')' ∷ [])

-- What a node is adjusted to. Only an assignment is a name; any other text is put in parentheses
-- where it has none and its kind needs them.
abbrev pub AdjustedNode : List AstNode → Text → AstNode → Ast → Text → Type 0
AdjustedNode ast s n (binary_operator assign) t =
    (i : ℕ) × (is : List ℕ) × (left : AstNode) × (n.children ≡ i ∷ is)
    × NodeAt ast i left
    × AssignedTo s left.a t
AdjustedNode ast s n a t =
    ((n.has_parens ≡ true) × (t ≡ s))
    ⊎ (((needs_parens a ≡ false) × (t ≡ s))
        ⊎ ((n.has_parens ≡ false) × (needs_parens a ≡ true) × (t ≡ b'(' ∷ (s ++ b')' ∷ []))))

-- The text that belongs to an expression that the text is parsed as.
abbrev pub AdjustedTo : Text → Expression → Text → Type 0
AdjustedTo s e t = (root : AstNode) × NodeAt e.ast e.root root × AdjustedNode e.ast s root root.a t

-- The adjustment fails where the parser does, with its error, and else gives that text.
abbrev pub Adjusted : Text → Result Expression → Result Text → Type 0
Adjusted s (ok e) (ok t) = AdjustedTo s e t
Adjusted s (err x) (err y) = x ≡ y
Adjusted s _ _ = ⊥
