-- ===== src/Interp/Taking.antt =====
-- `eat`, `eat_if` and `expect` of src/interp.rs on any text: they end without a panic, and what they
-- take makes what is left smaller.
use nnd.Base.{
  ℕ, suc, ◌≤◌, ◌≡◌, refl, ap, ◌∙◌, Bool, true, false, List, [], ◌∷◌, Option, none, some, ◌⊎◌, arith,
  length, inl, inr, min, take, drop,
}
use nnd.Interp.Ahead.{size, Ahead, Peeked, peek_from-Ensures}
use nnd.Interp.Input.{pos}
use nnd.Interp.Keeps.{Ensures-then_in}
use nnd.Interp.Lexer.{
  Lexer, peek_from, peek_round, peek_token, eat_token, eat_if, remove_first, peek_expect, expect,
  last_or,
}
use nnd.Interp.Result.{ok, Ensures, holds, rejected}
use nnd.Interp.Syntax.{Span}
use nnd.Interp.Token.{Token, eof}
use nnd.Interp.Tokens.{if-apply}

pub peek_token-Ensures : (lex : Lexer) → Ensures (Peeked (size lex)) (peek_token 1 lex)
unfolding peek_token
peek_token-Ensures lex = peek_from-Ensures (suc (length lex.input.rest)) lex (omega arith)

-- A token was taken, or the text is at its end.
abbrev pub Ate : ℕ → (Span × Token) × Lexer → Type 0
Ate n (t, l) = (suc (size l) ≤ n) ⊎ ((t.1 ≡ eof) × (size l ≤ n))

pub take_one : (n : ℕ) → min 1 (suc n) ≡ 1
take_one n = omega arith

pub eat_token-Ensures : (lex : Lexer) → Ensures (Ate (size lex)) (eat_token 1 lex)
unfolding eat_token
eat_token-Ensures lex =
    Ensures-then_in (Peeked (size lex)) (Ate (size lex)) (peek_token 1 lex) _
      (peek_token-Ensures lex) (λ (t, l) p. go t l l.next_tokens refl p.0)
  where
    go :
        (t : Span × Token) (l : Lexer) (ts : List (Span × Token))
        → l.next_tokens ≡ ts
        → size l ≤ size lex
        → Ensures (Ate (size lex)) (
            ok (
              last_or
                  (record { start = pos l.input; end = pos l.input }, eof)
                  (take (min 1 (length ts)) ts),
              record l { next_tokens = drop (min 1 (length ts)) ts; previous_token_end = t.0.end },
            ))
    go t l [] e h = holds (inr (refl, omega arith))
    go t l (x ∷ ts) e h = rw (take_one (length ts)) (holds (inl (omega (arith, h, ap length e))))

-- Where a token is ahead it is the one that is taken.
eat_token-ahead :
    (l : Lexer) (t : Span × Token) (ts : List (Span × Token))
    → l.next_tokens ≡ t ∷ ts
    → eat_token 1 l ≡ ok (t, record l { next_tokens = ts; previous_token_end = t.0.end })
unfolding eat_token peek_token peek_from peek_round
eat_token-ahead l t ts e = simp (e, take_one (length ts))

-- What `eat_if` gives with a test that the end does not pass.
abbrev pub AteIf : ℕ → Option (Span × Token) × Lexer → Type 0
AteIf n (none, l) = size l ≤ n
AteIf n (some t, l) = suc (size l) ≤ n

pub eat_if-Ensures :
    (test : Token → Bool) (lex : Lexer)
    → test eof ≡ false
    → Ensures (AteIf (size lex)) (eat_if test lex)
unfolding eat_if remove_first
eat_if-Ensures test lex f =
    Ensures-then_in (Peeked (size lex)) (AteIf (size lex)) (peek_token 1 lex) _
      (peek_token-Ensures lex)
      (λ (t, l) p.
        if-apply (AteIf (size lex)) (test t.1) _ _ l (λ q. go t l l.next_tokens refl p.0 p.1 q)
          (λ q. holds p.0))
  where
    go :
        (t : Span × Token) (l : Lexer) (ts : List (Span × Token))
        → l.next_tokens ≡ ts
        → size l ≤ size lex
        → Ahead t ts
        → test t.1 ≡ true
        → Ensures (AteIf (size lex)) (remove_first ts l)
    go t l [] e h a q = cc (ap test a)
    go t l (x ∷ ts) e h a q = holds (omega (arith, h, ap length e))

-- The token expected is there and was taken.
abbrev pub Expected : (Token → Bool) → ℕ → (Span × Token) × Lexer → Type 0
Expected test n (t, l) = (suc (size l) ≤ n) × (test t.1 ≡ true)

pub peek_expect-Ensures :
    (test : Token → Bool) (lex : Lexer)
    → Ensures (λ x. Peeked (size lex) x × (test x.0.1 ≡ true)) (peek_expect test lex)
unfolding peek_expect
peek_expect-Ensures test lex =
    Ensures-then_in (Peeked (size lex)) (λ x. Peeked (size lex) x × (test x.0.1 ≡ true))
      (peek_token 1 lex) _ (peek_token-Ensures lex)
      (λ (t, l) p.
        if-apply (λ x. Peeked (size lex) x × (test x.0.1 ≡ true)) (test t.1) _ _ l
          (λ q. holds (p, q)) (λ q. rejected))

pub expect-Ensures :
    (test : Token → Bool) (lex : Lexer)
    → test eof ≡ false
    → Ensures (Expected test (size lex)) (expect test lex)
unfolding expect
expect-Ensures test lex f =
    Ensures-then_in (λ x. Peeked (size lex) x × (test x.0.1 ≡ true)) (Expected test (size lex))
      (peek_expect test lex) _ (peek_expect-Ensures test lex)
      (λ (t, l) p. go t l l.next_tokens refl p.0.0 p.0.1 p.1)
  where
    go :
        (t : Span × Token) (l : Lexer) (ts : List (Span × Token))
        → l.next_tokens ≡ ts
        → size l ≤ size lex
        → Ahead t ts
        → test t.1 ≡ true
        → Ensures (Expected test (size lex)) (eat_token 1 l)
    go t l [] e h a q = cc (ap test a)
    go t l (x ∷ ts) e h a q =
        rw (eat_token-ahead l x ts e)
          (holds (omega (arith, h, ap length e), ap (λ y. test y.1) a ∙ q))
