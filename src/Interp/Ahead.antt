-- ===== src/Interp/Ahead.antt =====
-- The tokens ahead in src/interp.rs: `peek`, `eat`, `eat_if` and `expect` end on any text without a
-- panic, and a token that is taken makes what is left smaller.
use nnd.Base.{
  ℕ, zero, suc, ◌+◌, ◌≤◌, ◌<◌, ◌≡◌, refl, ap, sym, Bool, true, false, List, [], ◌∷◌, ◌++◌, arith,
  length, length-append, ◌==◌, get_elem?, subst,
}
use nnd.Interp.Input.{InputStream, pos, eat_if_eq}
use nnd.Interp.Keeps.{Keeps, Ensures-then_in, Ensures-mono}
use nnd.Interp.Lexer.{
  Lexer, lex_token, lex_dot, lex_round, push_token, peek_round, peek_from, is_whitespace, on_input,
}
use nnd.Interp.Lexing.{Within, eat_if_eq-Keeps}
use nnd.Interp.Result.{Result, M, Ensures, holds, then_in}
use nnd.Interp.Syntax.{Span}
use nnd.Interp.Token.{Token, eof}
use nnd.Interp.Tokens.{lex_token-Ensures, behind, if-apply}

-- The tokens that are still to come are no more.
abbrev pub size : Lexer → ℕ
size lex = length lex.next_tokens + length lex.input.rest

-- The next token stands ahead, or the text is at its end.
abbrev pub Ahead : Span × Token → List (Span × Token) → Type 0
Ahead t [] = t.1 ≡ eof
Ahead t (x ∷ ts) = x ≡ t

abbrev pub Peeked : ℕ → (Span × Token) × Lexer → Type 0
Peeked n (t, l) = (size l ≤ n) × Ahead t l.next_tokens

Peeked-mono :
    (m n : ℕ) (r : Result ((Span × Token) × Lexer))
    → m ≤ n
    → Ensures (Peeked m) r
    → Ensures (Peeked n) r
Peeked-mono m n r l h = Ensures-mono (Peeked m) (Peeked n) r h (λ x k. (omega (arith, k.0), k.1))

-- A token was read, and not put ahead yet.
abbrev Lexed : Lexer → Token × Lexer → Type 0
Lexed lex (t, l) = (length l.input.rest ≤ length lex.input.rest) × (l.next_tokens ≡ lex.next_tokens)

lex_dot-Lexed :
    (two : Bool) (lex l : Lexer)
    → length l.input.rest ≤ length lex.input.rest
    → l.next_tokens ≡ lex.next_tokens
    → Ensures (Lexed lex) (lex_dot two l)
unfolding lex_dot
lex_dot-Lexed true lex l h e = holds (h, e)
lex_dot-Lexed false lex l h e = holds (h, e)

on_input-Ensures :
    {A : Type 0} (m : M InputStream A) (lex : Lexer) (n : ℕ)
    → Ensures (λ x. Within n x.1) (m lex.input)
    → Ensures
        (λ x. (length x.1.input.rest ≤ n) × (x.1.next_tokens ≡ lex.next_tokens))
        (on_input m lex)
on_input-Ensures m lex n h =
    Ensures-then_in (λ x. Within n x.1)
      (λ x. (length x.1.input.rest ≤ n) × (x.1.next_tokens ≡ lex.next_tokens)) (m lex.input) _ h
      (λ x k. holds (k, refl))

pushed_token-Ensures :
    (again : M Lexer (Span × Token)) (start : ℕ) (token : Token) (l lex : Lexer)
    → (let l' : Lexer = record l {
      next_tokens = l.next_tokens ++ (record { start = start; end = pos l.input }, token) ∷ [];
    } in
        Ensures (Peeked (size l')) (again l'))
    → l.next_tokens ≡ lex.next_tokens
    → length l.input.rest ≤ length lex.input.rest
    → Ensures (Peeked (suc (size lex))) (then_in (push_token start token l) (λ x. again x.1))
unfolding push_token
pushed_token-Ensures again start token l lex k e h =
    Peeked-mono _ (suc (size lex)) _
      (omega (
        arith,
        h,
        ap length e,
        length-append l.next_tokens ((record { start = start; end = pos l.input }, token) ∷ []),
      ))
      k

-- The character `c` was eaten, and the rest is that of a token or a space.
lex_round-Ensures :
    (again : M Lexer (Span × Token)) (start c : ℕ) (previous_dot : Bool) (e cs : List ℕ)
    (lex : Lexer)
    → lex.input ≡ behind c e cs
    → ((l : Lexer) → length l.input.rest ≤ length cs → Ensures (Peeked (size l)) (again l))
    → Ensures (Peeked (suc (size lex))) (lex_round again start previous_dot c lex)
unfolding lex_round push_token Keeps
lex_round-Ensures again start c previous_dot e cs lex i k =
    let r : length lex.input.rest ≡ length cs = ap (λ s. length s.rest) i in
    if-apply (Peeked (suc (size lex))) (is_whitespace c) _ _ lex
      (λ _. Peeked-mono (size lex) (suc (size lex)) _ (omega arith) (k lex (omega arith)))
      (λ _.
        Ensures-then_in (Lexed lex) (Peeked (suc (size lex))) _ _
          (if-apply (Lexed lex) (c == b'.') _ _ lex
            (λ _.
              Ensures-then_in
                (λ x.
                  (length x.1.input.rest ≤ length lex.input.rest)
                  × (x.1.next_tokens ≡ lex.next_tokens))
                (Lexed lex) (on_input (eat_if_eq b'.') lex) (λ x. lex_dot x.0 x.1)
                (on_input-Ensures (eat_if_eq b'.') lex (length lex.input.rest)
                  (eat_if_eq-Keeps (length lex.input.rest) b'.' lex.input (omega arith)))
                (λ x q. lex_dot-Lexed x.0 lex x.1 q.0 q.1))
            (λ _. on_input-Ensures (lex_token previous_dot c) lex (length lex.input.rest) (
              subst (λ s. Ensures (λ x. Within (length s.rest) x.1) (lex_token previous_dot c s))
                (sym i) (lex_token-Ensures previous_dot c e cs))))
          (λ x q. pushed_token-Ensures again start x.0 x.1 lex (k _ (omega (arith, q.0))) q.1 q.0))

-- With as much fuel as there are characters the next token is read.
pub peek_from-Ensures :
    (fuel : ℕ) (lex : Lexer)
    → length lex.input.rest < fuel
    → Ensures (Peeked (size lex)) (peek_from fuel 1 lex)
unfolding peek_from peek_round
peek_from-Ensures zero lex h = absurd (omega arith)
peek_from-Ensures (suc fuel) lex h =
    go (λ l. peek_from-Ensures fuel l) lex.next_tokens refl lex.input.rest refl
  where
    go :
        ((l : Lexer) → length l.input.rest < fuel → Ensures (Peeked (size l)) (peek_from fuel 1 l))
        → (ts : List (Span × Token)) → lex.next_tokens ≡ ts
        → (r : List ℕ) → lex.input.rest ≡ r
        → Ensures (Peeked (size lex)) (peek_round (peek_from fuel 1) (get_elem? ts 0) r lex)
    go ih (t ∷ ts) e r f =
        let s : size lex ≤ size lex = omega arith in
        holds (s, subst (λ xs. Ahead t xs) (sym e) refl)
    go ih [] e [] f =
        let s : size lex ≤ size lex = omega arith in
        holds (
          s,
          subst (λ xs. Ahead (record { start = pos lex.input; end = pos lex.input }, eof) xs)
              (sym e) refl,
        )
    go ih [] e (c ∷ cs) f =
        Peeked-mono (suc (length lex.next_tokens + length cs)) (size lex) _
          (omega (arith, ap length f))
          (lex_round-Ensures (peek_from fuel 1) _ c _ lex.input.eaten cs _ refl
            (λ l j. ih l (omega (arith, ap length f, j))))
