-- ===== src/Interp/Rounds.antt =====
-- The rounds of `parse_expression` of src/interp.rs behind an expression: each ends without a panic and
-- takes some of the text, so the loop ends.
use nnd.Base.{ℕ, zero, suc, ◌≤◌, ◌<◌, Bool, ◌==◌, Option, none, some, arith, codes}
use nnd.Interp.Ahead.{size}
use nnd.Interp.Build.{Parser}
use nnd.Interp.Forms.{Self}
use nnd.Interp.Keeps.{Ensures-mono}
use nnd.Interp.Loops.{Round}
use nnd.Interp.Parser.{unless, parse_behind, end_node, behind_next, behind_from}
use nnd.Interp.Result.{M, Ensures}
use nnd.Interp.Steps.{Any, peek-Ensures}
use nnd.Interp.Syntax.{Precedence}
use nnd.Interp.Token.{Token, char, identifier, is_keyword}
use nnd.Interp.Tokens.{if-apply}
use nnd.Interp.Types.{Read, Reads}
use nnd.Interp.WellFormed.{Wf, NodeIn, Later, chain, ended}
use nnd.Interp.Behind.{
  parse_binary-Extends, parse_index-Extends, parse_cast-Extends, parse_call-Extends,
  parse_field-Extends, update_node-Any,
}

-- Where there is a node, it was made of some of what was left.
abbrev pub Grown : ℕ → Option ℕ → Parser → Type 0
Grown n none q = Unit
Grown n (some i) q = Read n i q

Grown-mono : (m n : ℕ) (r : Option ℕ) (q : Parser) → m ≤ n → Grown m r q → Grown n r q
Grown-mono m n none q l h = tt
Grown-mono m n (some i) q l h = (omega (arith, h.0), h.1)

unless-Grown :
    (n : ℕ) (stop : Bool) (m : M Parser ℕ) (p : Parser)
    → Wf p
    → Ensures (Later (Read n) p) (m p)
    → Ensures (Later (Grown n) p) (unless stop m p)
unless-Grown n stop m p w h =
    if-apply (Later (Grown n) p) stop _ _ p (λ _. ended (Grown n) none p w tt)
      (λ _. chain (Read n) (Grown n) p _ _ h (λ i q x y v j. ended (Grown n) (some i) q v j))

module _ (fuel : ℕ) (self : Self) (reads : (prec : Precedence) → Reads fuel (self prec)) where
  parse_behind-Grown :
      (outer : Precedence) (i : ℕ) (t : Token) (p : Parser)
      → Wf p
      → size p.lex < fuel
      → NodeIn i p
      → Ensures (Later (Grown (size p.lex)) p) (parse_behind self fuel outer i t p)
  unfolding parse_behind
  parse_behind-Grown outer i (Token.binary_operator op) p w l h =
      unless-Grown (size p.lex) _ _ p w (parse_binary-Extends fuel self reads op i p w l h)
  parse_behind-Grown outer i (char c) p w l h =
      let P = Later (Grown (size p.lex)) p in
      let n = size p.lex in
      if-apply P (c == b'(') _ _ p
        (λ _. unless-Grown n _ _ p w (parse_call-Extends fuel self reads i p w l h))
        (λ _.
          if-apply P (c == b'[') _ _ p
            (λ _. unless-Grown n _ _ p w (parse_index-Extends fuel self reads i p w l h))
            (λ _.
              if-apply P (c == b'.') _ _ p
                (λ _. unless-Grown n _ _ p w (parse_field-Extends fuel self reads i p w l h))
                (λ _. ended (Grown n) none p w tt)))
  parse_behind-Grown outer i (identifier s quoted) p w l h =
      if-apply (Later (Grown (size p.lex)) p) (is_keyword (codes "as") (identifier s quoted)) _ _ p
        (λ _. unless-Grown (size p.lex) _ _ p w (parse_cast-Extends fuel self reads i p w l h))
        (λ _. ended (Grown (size p.lex)) none p w tt)
  parse_behind-Grown outer i _ p w l h = ended (Grown (size p.lex)) none p w tt

  behind_next-NodeIn :
      (n i : ℕ) (again : ℕ → M Parser ℕ) (r : Option ℕ) (p : Parser)
      → Round NodeIn NodeIn n again
      → Wf p
      → NodeIn i p
      → Grown n r p
      → Ensures (Later NodeIn p) (behind_next again i r p)
  unfolding behind_next end_node
  behind_next-NodeIn n i again none p k w h g = ended NodeIn i p w h
  behind_next-NodeIn n i again (some j) p k w h g =
      chain Any NodeIn p _ _ (update_node-Any j _ p w g.1 (λ o m _. m))
        (λ _ q x y v _. k j q v (omega (arith, g.0)) (omega (arith, g.1)))

  -- Each round takes some of the text, so as many rounds as it has characters are enough.
  pub behind_from-NodeIn :
      (n : ℕ) (outer : Precedence)
      → n ≤ fuel
      → Round NodeIn NodeIn n (behind_from self fuel n outer)
  unfolding behind_from
  behind_from-NodeIn zero outer d i p w l h = absurd (omega arith)
  behind_from-NodeIn (suc n) outer d i p w l h =
      let again = behind_from-NodeIn n outer (omega arith) in
      chain Any NodeIn p _ _ (peek-Ensures p w) (λ t q x y v _.
        chain (Grown n) NodeIn q _ _
          (Ensures-mono _ _ _ (parse_behind-Grown outer i t.1 q v (omega arith) (omega arith))
            (λ z j. (j.0, Grown-mono (size q.lex) n z.0 z.1 (omega arith) j.1)))
          (λ new r a b u g.
            behind_next-NodeIn n i (behind_from self fuel n outer) new r again u (omega arith) g))
