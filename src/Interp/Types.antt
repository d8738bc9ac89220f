-- ===== src/Interp/Types.antt =====
-- The type syntax of src/interp.rs: reading a type ends without a panic and keeps the tree well formed.
use nnd.Base.{
  ℕ, zero, suc, ◌≤◌, ◌<◌, ◌≡◌, refl, ◌==◌, [], ◌∷◌, Option, none, some, ◌⊎◌, arith, inl, inr,
}
use nnd.Interp.Ahead.{size}
use nnd.Interp.Build.{
  Parser, eat, expect, finish_node, array_end, sized, array_len, type_token, parse_type,
}
use nnd.Interp.Keeps.{Ensures-mono}
use nnd.Interp.Result.{
  Result, ok, err, M, Ensures, rejected, then_in, fail, expected_token, references_not_supported,
  expected_type,
}
use nnd.Interp.Steps.{finish_node-Ensures, Eaten, Any, eat-Ensures, expect-Eaten}
use nnd.Interp.Syntax.{
  Span, mul, bit_and, operator_code, LiteralValue, as_unsigned, pointer_type, array_type,
}
use nnd.Interp.Token.{Token, eof, binary_operator, char, literal, identifier, is_char}
use nnd.Interp.Tokens.{if-apply}
use nnd.Interp.WellFormed.{Wf, NodeIn, Later, chain, ended}

-- A node that was made of some of what was left.
abbrev pub Read : ℕ → ℕ → Parser → Type 0
Read n i q = Eaten n q × NodeIn i q

pub NodeIn-Read :
    (n : ℕ) (q : Parser) (r : Result (ℕ × Parser))
    → suc (size q.lex) ≤ n
    → Ensures (Later NodeIn q) r
    → Ensures (Later (Read n) q) r
NodeIn-Read n q r l h =
    Ensures-mono (Later NodeIn q) (Later (Read n) q) r h
      (λ (i, s) (a, j). (a, (omega (arith, a.0), j)))

pub Read-NodeIn :
    (n : ℕ) (q : Parser) (r : Result (ℕ × Parser))
    → Ensures (Later (Read n) q) r
    → Ensures (Later NodeIn q) r
Read-NodeIn n q r h = Ensures-mono (Later (Read n) q) (Later NodeIn q) r h (λ x j. (j.0, j.1.1))

-- What reads a node from what is left, where that is less than `fuel`.
abbrev pub Reads : ℕ → M Parser ℕ → Type 0
Reads fuel m = (p : Parser) → Wf p → size p.lex < fuel → Ensures (Later (Read (size p.lex)) p) (m p)

array_end-Any : (v : LiteralValue) (p : Parser) → Wf p → Ensures (Later Any p) (array_end v p)
unfolding array_end is_char
array_end-Any v p w = go (as_unsigned v)
  where
    go :
        (o : Option ℕ)
        → Ensures (Later Any p) (
            (elim o as (λ _. M Parser (Option ℕ)) [
              | none ↦ (λ s. err expected_token)
              | some len ↦ (λ s. then_in (expect (is_char b']') s) (λ x. ok (some len, x.1)))
            ])
              p)
    go none = rejected
    go (some len) =
        chain _ Any p _ _ (expect-Eaten (is_char b']') p w refl)
          (λ a q l n v h. ended Any (some len) q v tt)

sized-Any : (t : Token) (p : Parser) → Wf p → Ensures (Later Any p) (sized t p)
unfolding sized
sized-Any (literal v) p w = array_end-Any v p w
sized-Any _ p w = rejected

array_len-Any : (t : Token) (p : Parser) → Wf p → Ensures (Later Any p) (array_len t p)
unfolding array_len
array_len-Any (char c) p w =
    if-apply (Later Any p) (c == b';') _ _ p
      (λ _. chain _ Any p _ _ (eat-Ensures p w) (λ t q l n v h. sized-Any t.1 q v))
      (λ _. if-apply (Later Any p) (c == b']') _ _ p (λ _. ended Any none p w tt) (λ _. rejected))
array_len-Any _ p w = rejected

module _ (fuel : ℕ) (self : M Parser ℕ) (reads : Reads fuel self) where
  pointer_type-NodeIn :
      (s : Span) (p : Parser)
      → Wf p
      → size p.lex < fuel
      → Ensures (Later NodeIn p) (then_in (self p) (λ x. finish_node s pointer_type (x.0 ∷ []) x.1))
  pointer_type-NodeIn s p w l =
      chain _ NodeIn p _ _ (reads p w l)
        (λ i q x y v h. finish_node-Ensures s _ _ q v (h.1, tt) (omega arith))

  array_type-NodeIn :
      (s : Span) (p : Parser)
      → Wf p
      → size p.lex < fuel
      → Ensures (Later NodeIn p) (
          then_in (self p) (λ x. then_in (eat x.1) (λ y.
            then_in (array_len y.0.1 y.1) (λ z. finish_node s (array_type z.0) (x.0 ∷ []) z.1))))
  array_type-NodeIn s p w l = chain _ NodeIn p _ _ (reads p w l) (λ i q x y v h.
      chain _ NodeIn q _ _ (eat-Ensures q v) (λ t r k m u j.
        chain Any NodeIn r _ _ (array_len-Any t.1 r u)
          (λ len z a b c d. finish_node-Ensures s _ _ z c (omega (arith, h.1), tt) (omega arith))))

  type_token-NodeIn :
      (s : Span) (t : Token) (p : Parser)
      → Wf p
      → size p.lex < fuel
      → Ensures (Later NodeIn p) (type_token self s t p)
  unfolding type_token
  type_token-NodeIn s (binary_operator op) p w l =
      if-apply (Later NodeIn p) (operator_code op == operator_code mul) _ _ p
        (λ _. pointer_type-NodeIn s p w l)
        (λ _.
          if-apply (Later NodeIn p) (operator_code op == operator_code bit_and)
            (fail references_not_supported) (fail expected_type) p (λ _. rejected) (λ _. rejected))
  type_token-NodeIn s (identifier name quoted) p w h =
      finish_node-Ensures s _ _ p w tt (omega arith)
  type_token-NodeIn s (char c) p w l =
      if-apply (Later NodeIn p) (c == b'[') _ _ p (λ _. array_type-NodeIn s p w l) (λ _. rejected)
  type_token-NodeIn s _ p w h = rejected

  type_token-Read :
      (n : ℕ) (s : Span) (t : Token) (p : Parser)
      → n ≤ fuel
      → Wf p
      → Eaten n p ⊎ (t ≡ eof)
      → Ensures (Later (Read n) p) (type_token self s t p)
  unfolding type_token
  type_token-Read n s t p l w (inl h) =
      NodeIn-Read n p _ h (type_token-NodeIn s t p w (omega arith))
  type_token-Read n s t p l w (inr e) = rw e rejected

pub parse_type-Reads : (fuel : ℕ) → Reads fuel (parse_type fuel)
unfolding parse_type
parse_type-Reads zero p w l = absurd (omega arith)
parse_type-Reads (suc fuel) p w l =
    let more = parse_type-Reads fuel in
    chain _ (Read (size p.lex)) p _ _ (eat-Ensures p w) (λ t q x y v h.
      type_token-Read fuel (parse_type fuel) more (size p.lex) t.0 t.1 q (omega arith) v h)
