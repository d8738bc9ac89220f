-- ===== src/Interp/Signed.antt =====
-- The tokens ahead of src/interp.rs have no unary operator but `!` among them.
use nnd.Base.{
  ℕ, zero, suc, Bool, true, false, ◌==◌, if◌then◌else◌, List, [], ◌∷◌, All, All-append, take, drop,
  min, length, get_elem?,
}
use nnd.Interp.Input.{InputStream, eat_if_eq}
use nnd.Interp.Lexer.{
  Lexer, lex_token, lex_dot, on_input, lex_round, push_token, is_whitespace, peek_round, peek_from,
  peek_token, eat_token, last_or, remove_first, eat_if, peek_expect, expect,
}
use nnd.Interp.Result.{M, then_in}
use nnd.Interp.Signs.{Sign, When, then_in-When, When-any, Gives, lex_token-Gives}
use nnd.Interp.Syntax.{Span}
use nnd.Interp.Taking.{take_one}
use nnd.Interp.Token.{Token}

abbrev pub SpanSign : Span × Token → Type 0
SpanSign t = Sign t.1

abbrev pub Signed : Lexer → Type 0
Signed lex = All SpanSign lex.next_tokens

-- A token, and the tokens ahead.
abbrev pub SignedToken : (Span × Token) × Lexer → Type 0
SignedToken x = SpanSign x.0 × Signed x.1

module _ {A : Type 0} (P : A × Lexer → Type 0) where
  if-When :
      (b : Bool) (m n : M Lexer A) (s : Lexer)
      → When P (m s)
      → When P (n s)
      → When P ((if b then m else n) s)
  if-When true m n s h k = h
  if-When false m n s h k = k

SignedNew : Token × Lexer → Type 0
SignedNew x = Sign x.0 × Signed x.1

lex_dot-Signed :
    (two : Bool) (lex : Lexer) → Signed lex → When (λ x. Sign x.0 × Signed x.1) (lex_dot two lex)
unfolding lex_dot
lex_dot-Signed true lex h = (tt, h)
lex_dot-Signed false lex h = (tt, h)

on_input-Signed :
    (m : M InputStream Token) (lex : Lexer)
    → When (λ x. Sign x.0) (m lex.input)
    → Signed lex
    → When (λ x. Sign x.0 × Signed x.1) (on_input m lex)
on_input-Signed m lex h k =
    then_in-When (λ x. Sign x.0) (λ x. Sign x.0 × Signed x.1) (m lex.input) _ h (λ x j. (j, k))

new_token-Signed :
    (previous_dot : Bool) (c : ℕ) (lex : Lexer)
    → Signed lex
    → When
        (λ x. Sign x.0 × Signed x.1)
        ((if c == b'.'
            then (λ l. then_in (on_input (eat_if_eq b'.') l) (λ x. lex_dot x.0 x.1))
            else on_input (lex_token previous_dot c))
          lex)
unfolding Gives
new_token-Signed previous_dot c lex h =
    if-When (λ x. Sign x.0 × Signed x.1) (c == b'.') _ _ lex
      (then_in-When (λ x. Signed x.1) (λ x. Sign x.0 × Signed x.1) (on_input (eat_if_eq b'.') lex) _
        (then_in-When (λ x. Unit {0}) (λ x. Signed x.1) (eat_if_eq b'.' lex.input) _ (When-any _)
          (λ x _. h))
        (λ x k. lex_dot-Signed x.0 x.1 k))
      (on_input-Signed (lex_token previous_dot c) lex (lex_token-Gives previous_dot c lex.input) h)

lex_round-Signed :
    (again : M Lexer (Span × Token)) (start : ℕ) (previous_dot : Bool) (c : ℕ) (lex : Lexer)
    → ((l : Lexer) → Signed l → When SignedToken (again l))
    → Signed lex
    → When SignedToken (lex_round again start previous_dot c lex)
unfolding lex_round push_token
lex_round-Signed again start previous_dot c lex k h =
    if-When SignedToken (is_whitespace c) _ _ lex (k lex h) (
      then_in-When (λ x. Sign x.0 × Signed x.1) SignedToken _ _
        (new_token-Signed previous_dot c lex h)
        (λ x j. k _ (All-append SpanSign x.1.next_tokens _ j.1 (j.0, tt))))

peek_from-Signed : (fuel : ℕ) (lex : Lexer) → Signed lex → When SignedToken (peek_from fuel 1 lex)
unfolding peek_from peek_round
peek_from-Signed zero lex h = tt
peek_from-Signed (suc fuel) lex h = go (peek_from-Signed fuel) lex.next_tokens h lex.input.rest
  where
    go :
        ((l : Lexer) → Signed l → When SignedToken (peek_from fuel 1 l))
        → (ts : List (Span × Token)) → All SpanSign ts
        → (r : List ℕ) → When SignedToken (peek_round (peek_from fuel 1) (get_elem? ts 0) r lex)
    go ih (t ∷ ts) j r = (j.0, h)
    go ih [] j [] = (tt, h)
    go ih [] j (c ∷ cs) = lex_round-Signed (peek_from fuel 1) _ _ c _ ih h

pub peek_token-Signed : (lex : Lexer) → Signed lex → When SignedToken (peek_token 1 lex)
unfolding peek_token
peek_token-Signed lex h = peek_from-Signed (suc (length lex.input.rest)) lex h

taken-Signed :
    (ts : List (Span × Token)) (d : Span × Token)
    → SpanSign d
    → All SpanSign ts
    → SpanSign (last_or d (take (min 1 (length ts)) ts))
      × All SpanSign (drop (min 1 (length ts)) ts)
taken-Signed [] d s h = (s, tt)
taken-Signed (t ∷ ts) d s h = rw (take_one (length ts)) h

pub eat_token-Signed : (lex : Lexer) → Signed lex → When SignedToken (eat_token 1 lex)
unfolding eat_token
eat_token-Signed lex h =
    then_in-When SignedToken SignedToken (peek_token 1 lex) _ (peek_token-Signed lex h)
      (λ x j. taken-Signed x.1.next_tokens _ tt j.1)

-- What `eat_if` leaves ahead.
pub eat_if-Signed :
    (test : Token → Bool) (lex : Lexer) → Signed lex → When (λ x. Signed x.1) (eat_if test lex)
unfolding eat_if remove_first
eat_if-Signed test lex h =
    then_in-When SignedToken (λ x. Signed x.1) (peek_token 1 lex) _ (peek_token-Signed lex h)
      (λ (t, l) j. if-When (λ x. Signed x.1) (test t.1) _ _ l (go l l.next_tokens j.1) j.1)
  where
    go :
        (l : Lexer) (ts : List (Span × Token))
        → All SpanSign ts
        → When (λ x. Signed x.1) (remove_first ts l)
    go l [] j = tt
    go l (t ∷ ts) j = j.1

pub peek_expect-Signed :
    (test : Token → Bool) (lex : Lexer) → Signed lex → When SignedToken (peek_expect test lex)
unfolding peek_expect
peek_expect-Signed test lex h =
    then_in-When SignedToken SignedToken (peek_token 1 lex) _ (peek_token-Signed lex h)
      (λ (t, l) j. if-When SignedToken (test t.1) _ _ l j tt)

pub expect-Signed :
    (test : Token → Bool) (lex : Lexer) → Signed lex → When SignedToken (expect test lex)
unfolding expect
expect-Signed test lex h =
    then_in-When SignedToken SignedToken (peek_expect test lex) _ (peek_expect-Signed test lex h)
      (λ x j. eat_token-Signed x.1 j.1)
