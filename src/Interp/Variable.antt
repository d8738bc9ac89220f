-- ===== src/Interp/Variable.antt =====
-- `make_expression_for_variable` of src/interp.rs: what it writes for a name is parsed back to it.
use nnd.Base.{
  ℕ, suc, ◌≡◌, refl, ap, sym, ◌∙◌, Bool, true, false, ◌==◌, ◌||◌, List, [], ◌∷◌, ◌++◌, ◌⊎◌, arith,
  length, length-append, All, Bool-cases, inl, inr, codes,
}
use nnd.Interp.Build.{finish_node, push_node}
use nnd.Interp.Forms.{parse_word}
use nnd.Interp.Input.{pos}
use nnd.Interp.Lexer.{
  is_operator_start, is_bracket, is_whitespace, lex_token, lex_round, push_token, peek_round,
  peek_from, peek_token, eat_token,
}
use nnd.Interp.Names.{
  is_word_start, is_word_char, Plain, quoted_from-Plain, identifier_from-word,
  is_operator_start-word, is_bracket-word, digit-word,
}
use nnd.Interp.Number.{lex_quoted, lex_identifier}
use nnd.Interp.Parser.{parse_expression, parse_first, behind_from, parse_behind, behind_next}
use nnd.Interp.Result.{ok}
use nnd.Interp.Syntax.{Text, Span, Expression, variable}
use nnd.Interp.Token.{identifier, text_eq, is_eof}
use nnd.Interp.Watch.{
  parse_watch_expression, should_quote_from, should_quote_identifier, make_expression_for_variable,
  is_there,
}
use nnd.Registers.{parse_ignore_case}

-- The words that begin an expression of another kind.
abbrev pub words : List Text
words =
    codes "struct"
    ∷ codes "continue"
    ∷ codes "break"
    ∷ codes "return"
    ∷ codes "while"
    ∷ codes "for"
    ∷ codes "loop"
    ∷ codes "if"
    ∷ codes "let"
    ∷ codes "fn"
    ∷ []

abbrev pub OtherWord : Text → Text → Type 0
OtherWord name word = text_eq name word ≡ false

-- A variable on its own.
abbrev pub variable_expression : Span → Text → Bool → Expression
variable_expression s name quoted = record {
  ast = record { span = s; a = variable name quoted false; children = []; has_parens = false } ∷ [];
  root = 0;
}

lex_quoted-Plain :
    (name : Text)
    → All Plain name
    → (e' : Text) × (lex_token false b'`' (record { eaten = b'`' ∷ []; rest = name ++ b'`' ∷ [] })
        ≡ ok (identifier name true, record { eaten = e'; rest = [] }))
unfolding lex_token lex_quoted is_operator_start is_bracket
lex_quoted-Plain name h =
    let (e', k) =
      quoted_from-Plain (suc (length (name ++ b'`' ∷ []))) (b'`' ∷ []) [] name h
        (omega (arith, length-append name (b'`' ∷ []))) in
    (e', rw k refl)

lex_identifier-word :
    (c : ℕ) (cs : Text)
    → is_word_start c ≡ true
    → All (λ d. is_word_char d ≡ true) (c ∷ cs)
    → (e' : Text) × (lex_token false c (record { eaten = c ∷ []; rest = cs })
        ≡ ok (identifier (c ∷ cs) false, record { eaten = e'; rest = [] }))
unfolding lex_token lex_identifier
lex_identifier-word c cs s h =
    let (e', k) = identifier_from-word [] (c ∷ cs) h in
    let d : (c == b':') ≡ false = ground arith in
    let q : (c == b'"') ≡ false = ground arith in
    let r : (c == b'\'') ≡ false = ground arith in
    let b : (c == b'`') ≡ false = ground arith in
    (
      e',
      rw (is_operator_start-word c s, is_bracket-word c s, d, q, r, digit-word c s, b, s, k) refl,
    )

-- One token that is an identifier, with nothing behind it.
identifier-parsed :
    (c : ℕ) (cs e' name : Text) (quoted : Bool)
    → is_whitespace c ≡ false
    → (c == b'.') ≡ false
    → lex_token false c (record { eaten = c ∷ []; rest = cs })
      ≡ ok (identifier name quoted, record { eaten = e'; rest = [] })
    → (quoted ≡ true) ⊎ All (OtherWord name) words
    → (s : Span) × (parse_watch_expression (c ∷ cs) ≡ ok (variable_expression s name quoted))
unfolding parse_watch_expression parse_expression parse_first parse_word finish_node push_node
    behind_from parse_behind behind_next peek_token peek_from peek_round lex_round push_token
    eat_token is_eof pos
identifier-parsed c cs e' name true w d k h =
    (record { start = 0; end = pos (record { eaten = e'; rest = [] }) }, rw (w, d, k) refl)
identifier-parsed c cs e' name false w d k (inr h) = (
  record { start = 0; end = pos (record { eaten = e'; rest = [] }) },
  rw
      (
        w, d, k, h.0, h.1.0, h.1.1.0, h.1.1.1.0, h.1.1.1.1.0, h.1.1.1.1.1.0, h.1.1.1.1.1.1.0,
        h.1.1.1.1.1.1.1.0, h.1.1.1.1.1.1.1.1.0, h.1.1.1.1.1.1.1.1.1.0,
      )
      refl,
)
identifier-parsed c cs e' name false w d k (inl h) = cc

should_quote_from-word :
    (is_first : Bool) (name : Text)
    → should_quote_from is_first name ≡ false
    → All (λ c. (c == b':') ≡ false) name
    → All (λ c. is_word_char c ≡ true) name
unfolding should_quote_from
should_quote_from-word is_first [] h k = tt
should_quote_from-word is_first (c ∷ cs) h k =
    let t : should_quote_from false cs ≡ false = ground (arith, h, k.0) in
    (ground (arith, h, k.0), should_quote_from-word false cs t k.1)

should_quote_from-start :
    (c : ℕ) (cs : Text)
    → should_quote_from true (c ∷ cs) ≡ false
    → (c == b':') ≡ false
    → is_word_start c ≡ true
unfolding should_quote_from
should_quote_from-start c cs h k = ground (arith, h, k)

-- Whether a name is written in quotes.
abbrev pub is_quoted : Text → Bool
is_quoted name = is_there (parse_ignore_case name) || should_quote_identifier name

make_expression-quoted :
    (name : Text)
    → is_quoted name ≡ true
    → make_expression_for_variable name ≡ b'`' ∷ (name ++ b'`' ∷ [])
unfolding make_expression_for_variable
make_expression-quoted name q = rw q refl

make_expression-plain :
    (name : Text) → is_quoted name ≡ false → make_expression_for_variable name ≡ name
unfolding make_expression_for_variable
make_expression-plain name q = rw q refl

Plain-all :
    (name : Text)
    → All (λ c. Plain c × ((c == b':') ≡ false)) name
    → All Plain name × All (λ c. (c == b':') ≡ false) name
Plain-all [] h = (tt, tt)
Plain-all (c ∷ cs) h = let (a, b) = Plain-all cs h.1 in (((h.0.0, a), (h.0.1, b)))

or-false : (a b : Bool) → (a || b) ≡ false → b ≡ false
or-false true b h = cc
or-false false b h = h

word-parsed :
    (name : Text)
    → should_quote_identifier name ≡ false
    → All (λ c. (c == b':') ≡ false) name
    → All (OtherWord name) words
    → (s : Span) × (parse_watch_expression name ≡ ok (variable_expression s name false))
unfolding should_quote_identifier
word-parsed [] q h k = cc
word-parsed (c ∷ cs) q h k =
    let s = should_quote_from-start c cs q h.0 in
    let (e', l) = lex_identifier-word c cs s (should_quote_from-word true (c ∷ cs) q h) in
    let w : is_whitespace c ≡ false = ground (arith, s) in
    let d : (c == b'.') ≡ false = ground (arith, s) in
    identifier-parsed c cs e' (c ∷ cs) false w d l (inr k)

-- A name without backquotes, backslashes and colons that begins no expression of another kind is
-- parsed back as a variable on its own.
pub make_expression_for_variable-parsed :
    (name : Text)
    → All (λ c. Plain c × ((c == b':') ≡ false)) name
    → All (OtherWord name) words
    → (s : Span) × (parse_watch_expression (make_expression_for_variable name)
        ≡ ok (variable_expression s name (is_quoted name)))
make_expression_for_variable-parsed name h k =
    let (p, m) = Plain-all name h in
    elim (Bool-cases (is_quoted name)) [
      | inl q ↦
          let (e', l) = lex_quoted-Plain name p in
          let (s, r) =
            identifier-parsed b'`' (name ++ b'`' ∷ []) e' name true refl refl l (inl refl) in
          (
            s,
            ap parse_watch_expression (make_expression-quoted name q)
                ∙ (r ∙ ap (λ b. ok (variable_expression s name b)) (sym q)),
          )
      | inr q ↦
          let (s, r) = word-parsed name (or-false _ _ q) m k in
          (
            s,
            ap parse_watch_expression (make_expression-plain name q)
                ∙ (r ∙ ap (λ b. ok (variable_expression s name b)) (sym q)),
          )
    ]
