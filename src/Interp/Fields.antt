-- ===== src/Interp/Fields.antt =====
-- The lists with names of src/interp.rs, of fields and parameters, and the elements of an array: each
-- loop over one ends without a panic and gives nodes that are there.
use nnd.Base.{
  ℕ, zero, suc, ◌≤◌, ◌<◌, refl, ◌==◌, List, [], ◌∷◌, ◌++◌, Option, none, some, arith, inl, inr,
}
use nnd.Interp.Ahead.{size}
use nnd.Interp.Build.{Parser}
use nnd.Interp.Forms.{
  Self, Named, field_next, fields_from, param_next, params_from, array_next, array_from,
}
use nnd.Interp.Loops.{NodesIn-append, NamedIn, NamedIn-append, Round}
use nnd.Interp.Result.{M, Ensures, rejected}
use nnd.Interp.Steps.{
  Any, eat-Ensures, expect-Eaten, eat_if-EatenIf, into_identifier-Any, comma_or-Any,
}
use nnd.Interp.Syntax.{Span, comma_list}
use nnd.Interp.Token.{Token, char, identifier, is_char, is_identifier}
use nnd.Interp.Tokens.{if-apply}
use nnd.Interp.Types.{Reads, parse_type-Reads}
use nnd.Interp.WellFormed.{Wf, NodesIn, Later, chain, ended, All-Below-mono}

module _ (fuel : ℕ) (item : M Parser ℕ) (reads : Reads fuel item) where
  field_next-NamedIn :
      (n : ℕ) (again : Named → M Parser Named) (fields : Named) (t : Token) (p : Parser)
      → Round NamedIn NamedIn n again
      → Wf p
      → size p.lex < n
      → size p.lex < fuel
      → NamedIn fields p
      → Ensures (Later NamedIn p) (field_next again item fields t p)
  unfolding field_next is_char
  field_next-NamedIn n again fields (identifier s quoted) p k w l f h =
      chain _ NamedIn p _ _ (expect-Eaten (is_char b':') p w refl) (λ t q x y v j.
        chain _ NamedIn q _ _ (reads q v (omega arith)) (λ i r a b u z.
          chain Any NamedIn r _ _ (comma_or-Any b'}' r u) (λ _ o c d e _.
            k (fields.0 ++ s ∷ [], fields.1 ++ i ∷ []) o e (omega arith)
              (NamedIn-append fields s i p o h (omega arith) (omega (arith, z.1))))))
  field_next-NamedIn n again fields (char c) p k w l f h =
      if-apply (Later NamedIn p) (c == b'}') _ _ p (λ _. ended NamedIn fields p w h) (λ _. rejected)
  field_next-NamedIn n again fields _ p k w l f h = rejected

  pub fields_from-NamedIn : (n : ℕ) → n ≤ fuel → Round NamedIn NamedIn n (fields_from item n)
  unfolding fields_from
  fields_from-NamedIn zero d fields p w l h = absurd (omega arith)
  fields_from-NamedIn (suc n) d fields p w l h =
      let again = fields_from-NamedIn n (omega arith) in
      chain _ NamedIn p _ _ (eat-Ensures p w) (λ t q x y v j. elim j [
        | inl e ↦
            field_next-NamedIn n (fields_from item n) fields t.1 q again v (omega (arith, e))
              (omega arith) (All-Below-mono _ _ fields.1 y h.0, h.1)
        | inr e ↦ rw e rejected
      ])

module _ (fuel : ℕ) where
  param_next-NamedIn :
      (n : ℕ) (again : Named → M Parser Named) (args : Named) (t : Option (Span × Token))
      (p : Parser)
      → Round NamedIn NamedIn n again
      → Wf p
      → size p.lex < suc n
      → size p.lex < fuel
      → NamedIn args p
      → Ensures (Later NamedIn p) (param_next again fuel args t p)
  unfolding param_next is_char is_identifier
  param_next-NamedIn n again args (some q) p k w l f h = ended NamedIn args p w h
  param_next-NamedIn n again args none p k w l f h =
      chain _ NamedIn p _ _ (expect-Eaten is_identifier p w refl) (λ t q x y v j.
        chain Any NamedIn q _ _ (into_identifier-Any t.1 q v j.1) (λ name r a b u _.
          chain _ NamedIn r _ _ (expect-Eaten (is_char b':') r u refl) (λ _ s c d e _.
            chain _ NamedIn s _ _ (parse_type-Reads fuel s e (omega arith)) (λ i o g m z g_i.
              k (args.0 ++ name ∷ [], args.1 ++ i ∷ []) o z (omega (arith, j.0))
                (NamedIn-append args name i p o h (omega arith) (omega (arith, g_i.1)))))))

  pub params_from-NamedIn : (n : ℕ) → n ≤ fuel → Round NamedIn NamedIn n (params_from fuel n)
  unfolding params_from is_char
  params_from-NamedIn zero d args p w l h = absurd (omega arith)
  params_from-NamedIn (suc n) d args p w l h =
      let again = params_from-NamedIn n (omega arith) in
      chain _ NamedIn p _ _ (eat_if-EatenIf (is_char b')') p w refl) (λ t q x y v j.
        param_next-NamedIn n (params_from fuel n) args t q again v (omega arith) (omega arith)
          (All-Below-mono _ _ args.1 y h.0, h.1))

module _ (fuel : ℕ) (self : Self) (reads : Reads fuel (self comma_list)) where
  array_next-NodesIn :
      (n : ℕ) (again : List ℕ → M Parser (List ℕ)) (children : List ℕ) (t : Option (Span × Token))
      (p : Parser)
      → Round NodesIn NodesIn n again
      → Wf p
      → size p.lex < suc n
      → size p.lex < fuel
      → NodesIn children p
      → Ensures (Later NodesIn p) (array_next again self children t p)
  unfolding array_next
  array_next-NodesIn n again children (some t) p k w l f h = ended NodesIn children p w h
  array_next-NodesIn n again children none p k w l f h =
      chain _ NodesIn p _ _ (reads p w f) (λ i q x y v j.
        chain Any NodesIn q _ _ (comma_or-Any b']' q v) (λ _ r a b u _.
          k (children ++ i ∷ []) r u (omega (arith, j.0))
            (NodesIn-append children i p r h (omega arith) (omega (arith, j.1)))))

  pub array_from-NodesIn : (n : ℕ) → n ≤ fuel → Round NodesIn NodesIn n (array_from self n)
  unfolding array_from is_char
  array_from-NodesIn zero d children p w l h = absurd (omega arith)
  array_from-NodesIn (suc n) d children p w l h =
      let again = array_from-NodesIn n (omega arith) in
      chain _ NodesIn p _ _ (eat_if-EatenIf (is_char b']') p w refl) (λ t q x y v j.
        array_next-NodesIn n (array_from self n) children t q again v (omega arith) (omega arith)
          (All-Below-mono _ _ children y h))
