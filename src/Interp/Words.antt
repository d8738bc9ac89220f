-- ===== src/Interp/Words.antt =====
-- The expressions of src/interp.rs that begin with a word: reading one ends without a panic and gives
-- a node that is there, with the children it needs.
use nnd.Base.{
  ℕ, ◌<◌, ◌≡◌, refl, Bool, true, false, ◌==◌, List, [], ◌∷◌, ◌++◌, Option, none, some, arith,
  length, length-append, codes, All-append,
}
use nnd.Interp.Ahead.{size}
use nnd.Interp.Build.{Parser}
use nnd.Interp.Fields.{fields_from-NamedIn, params_from-NamedIn}
use nnd.Interp.Forms.{
  Self, struct_token, ends_return, parse_return, parse_while, parse_for, parse_loop, else_part,
  parse_if, optional_type, optional_value, is_there, parse_let, parse_fn, parse_word,
}
use nnd.Interp.Loops.{NamedIn, parse_block-Reads}
use nnd.Interp.Result.{M, Ensures, rejected}
use nnd.Interp.Steps.{
  finish_node-Ensures, Any, peek-Ensures, eat-Ensures, expect-Eaten, eat_if-EatenIf,
  into_identifier-Any,
}
use nnd.Interp.Syntax.{Text, Span, Precedence, weakest, returning, comma_list, strongest, assign}
use nnd.Interp.Token.{
  Token, char, identifier, is_char, is_identifier, is_keyword, is_arrow, is_binary_operator,
  text_eq,
}
use nnd.Interp.Tokens.{if-apply}
use nnd.Interp.Types.{Read, Reads, parse_type-Reads}
use nnd.Interp.WellFormed.{Wf, Below, NodeIn, NodesIn, Later, chain, ended, All-Below-mono, count}

-- Nodes that an optional part of an expression gives: one where it is there.
abbrev pub PartIn : Bool → List ℕ → Parser → Type 0
PartIn there children q = NodesIn children q × (length children ≡ count there)

-- From what is left, less than `fuel`, a node.
abbrev pub Makes : ℕ → M Parser ℕ → Type 0
Makes fuel m = (p : Parser) → Wf p → size p.lex < fuel → Ensures (Later NodeIn p) (m p)

module _ (fuel : ℕ) where
  optional_type-PartIn :
      (t : Option (Span × Token)) (p : Parser)
      → Wf p
      → size p.lex < fuel
      → Ensures (Later (PartIn (is_there t)) p) (optional_type fuel t p)
  unfolding optional_type
  optional_type-PartIn none p w l = ended (PartIn false) [] p w (tt, refl)
  optional_type-PartIn (some t) p w l =
      chain _ (PartIn true) p _ _ (parse_type-Reads fuel p w l)
        (λ i q x y v h. ended (PartIn true) (i ∷ []) q v ((h.1, tt), refl))

module _ (fuel : ℕ) (self : Self) (reads : (prec : Precedence) → Reads fuel (self prec)) where
  optional_value-PartIn :
      (t : Option (Span × Token)) (p : Parser)
      → Wf p
      → size p.lex < fuel
      → Ensures (Later (PartIn (is_there t)) p) (optional_value self t p)
  unfolding optional_value
  optional_value-PartIn none p w l = ended (PartIn false) [] p w (tt, refl)
  optional_value-PartIn (some t) p w l =
      chain _ (PartIn true) p _ _ (reads weakest p w l)
        (λ i q x y v h. ended (PartIn true) (i ∷ []) q v ((h.1, tt), refl))

  struct_token-NodeIn : (s : Span) (t : Token) → Makes fuel (struct_token self fuel s t)
  unfolding struct_token is_char
  struct_token-NodeIn s (char c) p w l =
      if-apply (Later NodeIn p) (c == b'{') _ _ p
        (λ _.
          chain NamedIn NodeIn p _ _
            (fields_from-NamedIn fuel (self comma_list) (reads comma_list) fuel (omega arith)
              ([], []) p w l (tt, refl))
            (λ fields q x y v h. finish_node-Ensures s _ _ q v h.0 (omega (arith, h.1))))
        (λ _. rejected)
  struct_token-NodeIn s (identifier name quoted) p w l =
      chain _ NodeIn p _ _ (expect-Eaten (is_char b'{') p w refl) (λ t q x y v h.
        chain NamedIn NodeIn q _ _
          (fields_from-NamedIn fuel _ (parse_type-Reads fuel) fuel (omega arith) ([], []) q v
            (omega arith) (tt, refl))
          (λ fields r a b u h. finish_node-Ensures s _ _ r u h.0 (omega (arith, h.1))))
  struct_token-NodeIn s _ p w l = rejected

  parse_return-NodeIn : (s : Span) → Makes fuel (parse_return self s)
  unfolding parse_return
  parse_return-NodeIn s p w l = chain Any NodeIn p _ _ (peek-Ensures p w) (λ t q x y v _.
      chain NodesIn NodeIn q _ _
        (if-apply (Later NodesIn q) (ends_return t.1) _ _ q (λ _. ended NodesIn [] q v tt)
          (λ _.
            chain _ NodesIn q _ _ (reads returning q v (omega arith))
              (λ i r a b u h. ended NodesIn (i ∷ []) r u (h.1, tt))))
        (λ children r a b u h. finish_node-Ensures s _ _ r u h (omega arith)))

  parse_while-NodeIn : (s : Span) → Makes fuel (parse_while self fuel s)
  unfolding parse_while
  parse_while-NodeIn s p w l = chain _ NodeIn p _ _ (reads weakest p w l) (λ e q x y v h.
      chain _ NodeIn q _ _ (parse_block-Reads fuel self reads q v (omega arith)) (λ b r a c u j.
        finish_node-Ensures s _ _ r u (omega (arith, h.1), (j.1, tt)) (omega arith)))

  parse_for-NodeIn : (s : Span) → Makes fuel (parse_for self fuel s)
  unfolding parse_for is_identifier is_keyword
  parse_for-NodeIn s p w l =
      chain _ NodeIn p _ _ (expect-Eaten is_identifier p w refl) (λ t q x y v h.
        chain Any NodeIn q _ _ (into_identifier-Any t.1 q v h.1) (λ name r a b u _.
          chain _ NodeIn r _ _ (expect-Eaten (is_keyword (codes "in")) r u refl) (λ _ o c d z _.
            chain _ NodeIn o _ _ (reads weakest o z (omega arith)) (λ e m f g y_m j.
              chain _ NodeIn m _ _ (parse_block-Reads fuel self reads m y_m (omega arith))
                (λ b n i k w_n i_n.
                  finish_node-Ensures s _ _ n w_n (omega (arith, j.1), (i_n.1, tt))
                    (omega arith))))))

  parse_loop-NodeIn : (s : Span) → Makes fuel (parse_loop self fuel s)
  unfolding parse_loop
  parse_loop-NodeIn s p w l =
      chain _ NodeIn p _ _ (parse_block-Reads fuel self reads p w l)
        (λ b q x y v h. finish_node-Ensures s _ _ q v (h.1, tt) (omega arith))

  else_part-NodesIn :
      (t : Option (Span × Token)) (p : Parser)
      → Wf p
      → size p.lex < fuel
      → Ensures (Later NodesIn p) (else_part self fuel t p)
  unfolding else_part
  else_part-NodesIn none p w l = ended NodesIn [] p w tt
  else_part-NodesIn (some _) p w l = chain Any NodesIn p _ _ (peek-Ensures p w) (λ t q x y v _.
      chain (Read (size q.lex)) NodesIn q _ _
        (if-apply (Later (Read (size q.lex)) q) (is_keyword (codes "if") t.1) _ _ q
          (λ _. reads strongest q v (omega arith))
          (λ _. parse_block-Reads fuel self reads q v (omega arith)))
        (λ i r a b u h. ended NodesIn (i ∷ []) r u (h.1, tt)))

  parse_if-NodeIn : (s : Span) → Makes fuel (parse_if self fuel s)
  unfolding parse_if is_keyword
  parse_if-NodeIn s p w l = chain _ NodeIn p _ _ (reads weakest p w l) (λ e q x y v h.
      chain _ NodeIn q _ _ (parse_block-Reads fuel self reads q v (omega arith)) (λ b r a c u j.
        chain _ NodeIn r _ _ (eat_if-EatenIf (is_keyword (codes "else")) r u refl) (λ t m d f z _.
          chain NodesIn NodeIn m _ _ (else_part-NodesIn t m z (omega arith)) (λ more n g i w_n k.
            finish_node-Ensures s _ _ n w_n (omega (arith, h.1), (omega (arith, j.1), k))
              (omega arith)))))

  parse_let-NodeIn : (s : Span) → Makes fuel (parse_let self fuel s)
  unfolding parse_let is_identifier is_char is_binary_operator
  parse_let-NodeIn s p w l =
      chain _ NodeIn p _ _ (expect-Eaten is_identifier p w refl) (λ t q x y v h.
        chain Any NodeIn q _ _ (into_identifier-Any t.1 q v h.1) (λ name r a b u _.
          chain _ NodeIn r _ _ (eat_if-EatenIf (is_char b':') r u refl) (λ colon o c d z _.
            chain _ NodeIn o _ _ (optional_type-PartIn fuel colon o z (omega arith))
              (λ type m f g y_m j.
                chain _ NodeIn m _ _ (eat_if-EatenIf (is_binary_operator assign) m y_m refl)
                  (λ equals n i k w_n _.
                    chain _ NodeIn n _ _ (optional_value-PartIn equals n w_n (omega arith))
                      (λ value e f_e g_e w_e k_e.
                        finish_node-Ensures s _ _ e w_e
                          (All-append (Below (length e.ast)) type value
                            (All-Below-mono _ _ type (omega arith) j.0) k_e.0)
                          (omega (arith, j.1, length-append type value))))))))

  parse_fn-NodeIn : (s : Span) → Makes fuel (parse_fn self fuel s)
  unfolding parse_fn is_identifier is_char is_arrow
  parse_fn-NodeIn s p w l =
      chain _ NodeIn p _ _ (expect-Eaten is_identifier p w refl) (λ t q x y v h.
        chain Any NodeIn q _ _ (into_identifier-Any t.1 q v h.1) (λ name r a b u _.
          chain _ NodeIn r _ _ (expect-Eaten (is_char b'(') r u refl) (λ _ o c d z _.
            chain NamedIn NodeIn o _ _
              (params_from-NamedIn fuel fuel (omega arith) ([], []) o z (omega arith) (tt, refl))
              (λ args m f g y_m j.
                chain _ NodeIn m _ _ (eat_if-EatenIf is_arrow m y_m refl) (λ arrow n i k w_n _.
                  chain _ NodeIn n _ _ (optional_type-PartIn fuel arrow n w_n (omega arith))
                    (λ type e f_e g_e w_e k_e.
                      chain _ NodeIn e _ _ (parse_block-Reads fuel self reads e w_e (omega arith))
                        (λ body y f_y g_y w_y k_y.
                          finish_node-Ensures s _ _ y w_y
                            (All-append (Below (length y.ast)) args.1 _
                              (All-Below-mono _ _ args.1 (omega arith) j.0)
                              (All-append (Below (length y.ast)) type _
                                (All-Below-mono _ _ type g_y k_e.0) (k_y.1, tt)))
                            (omega (
                              arith,
                              j.1,
                              k_e.1,
                              length-append args.1 (type ++ body ∷ []),
                              length-append type (body ∷ []),
                            )))))))))

  pub parse_word-NodeIn : (s : Span) (word : Text) → Makes fuel (parse_word self fuel s word)
  unfolding parse_word
  parse_word-NodeIn s word p w l =
      let Q = Later NodeIn p in
      if-apply Q (text_eq word (codes "struct")) _ _ p
        (λ _.
          chain _ NodeIn p _ _ (eat-Ensures p w)
            (λ t q x y v h. struct_token-NodeIn s t.1 q v (omega arith)))
        (λ _.
          if-apply Q (text_eq word (codes "continue")) _ _ p
            (λ _. finish_node-Ensures s _ [] p w tt (omega arith))
            (λ _.
              if-apply Q (text_eq word (codes "break")) _ _ p
                (λ _. finish_node-Ensures s _ [] p w tt (omega arith))
                (λ _.
                  if-apply Q (text_eq word (codes "return")) _ _ p
                    (λ _. parse_return-NodeIn s p w l)
                    (λ _.
                      if-apply Q (text_eq word (codes "while")) _ _ p
                        (λ _. parse_while-NodeIn s p w l)
                        (λ _.
                          if-apply Q (text_eq word (codes "for")) _ _ p
                            (λ _. parse_for-NodeIn s p w l)
                            (λ _.
                              if-apply Q (text_eq word (codes "loop")) _ _ p
                                (λ _. parse_loop-NodeIn s p w l)
                                (λ _.
                                  if-apply Q (text_eq word (codes "if")) _ _ p
                                    (λ _. parse_if-NodeIn s p w l)
                                    (λ _.
                                      if-apply Q (text_eq word (codes "let")) _ _ p
                                        (λ _. parse_let-NodeIn s p w l)
                                        (λ _.
                                          if-apply Q (text_eq word (codes "fn")) _ _ p
                                            (λ _. parse_fn-NodeIn s p w l)
                                            (λ _.
                                              finish_node-Ensures s _ [] p w tt
                                                (omega arith)))))))))))
