-- ===== src/Interp/Lexing.antt =====
-- The lexer of src/interp.rs on any text: it ends without a panic, and leaves no more characters
-- than there were.
use nnd.Base.{
  ℕ, ◌≤◌, Bool, true, false, not, ◌==◌, ◌||◌, List, [], ◌∷◌, Option, none, some, arith, length,
  Bool-cases, inl, inr,
}
use nnd.Interp.Input.{
  InputStream, peek, eat, eat_if_eq, eat_if_eq_from, eat_from, eat_digits, eat_digits_from,
  to_digit, first,
}
use nnd.Interp.Keeps.{Keeps, pure-Keeps, fail-Keeps, bind-Keeps, if-Keeps, option-Keeps}
use nnd.Interp.Lexer.{followed, lex_minus, lex_less, lex_greater, lex_not, lex_operator}
use nnd.Interp.Number.{
  hex_escape, escaped, parse_char_escape_sequence, char_start, char_end, lex_char, hex_prefix,
  binary_prefix, radix_prefix, fraction, behind_dot, Fraction, is_dot, exponent_radix, exponent,
  check_suffix, number_token, int_value, number_from,
}
use nnd.Interp.Result.{M, Ensures, holds, rejected, then_in, ◌>>=◌}
use nnd.Interp.Syntax.{BinaryOperator}
use nnd.Interp.Token.{Token}

-- At most so many characters are left.
abbrev pub Within : ℕ → InputStream → Type 0
Within n s = length s.rest ≤ n

module _ (n : ℕ) where
  peek-Keeps : Keeps (Within n) peek
  unfolding Keeps
  peek-Keeps s h = holds h

  eat-Keeps : Keeps (Within n) eat
  unfolding Keeps
  eat-Keeps s h = go s.eaten s.rest h
    where
      go : (e r : List ℕ) → length r ≤ n → Ensures (λ x. Within n x.1) (eat_from e r)
      go e [] h = holds h
      go e (x ∷ cs) h = holds (omega arith)

  pub eat_if_eq-Keeps : (c : ℕ) → Keeps (Within n) (eat_if_eq c)
  unfolding Keeps eat_if_eq_from
  eat_if_eq-Keeps c s h = go s.eaten s.rest h
    where
      go : (e r : List ℕ) → length r ≤ n → Ensures (λ x. Within n x.1) (eat_if_eq_from c e r)
      go e [] h = holds h
      go e (x ∷ cs) h = elim (Bool-cases (x == c)) [
        | inl q ↦ rw q (holds (omega arith))
        | inr q ↦ rw q (holds h)
      ]

  pub length-eat_digits_from :
      (radix : ℕ) (e r : List ℕ) → length (eat_digits_from radix e r).1.rest ≤ length r
  unfolding eat_digits_from
  length-eat_digits_from radix e [] = omega arith
  length-eat_digits_from radix e (c ∷ cs) = ground (arith, length-eat_digits_from radix (c ∷ e) cs)

  eat_digits-Keeps : (radix : ℕ) → Keeps (Within n) (eat_digits radix)
  unfolding Keeps
  eat_digits-Keeps radix s h = holds (omega (arith, length-eat_digits_from radix s.eaten s.rest))

  ruleset steps = (
    pure-Keeps, fail-Keeps, bind-Keeps, if-Keeps, option-Keeps, peek-Keeps, eat-Keeps,
    eat_if_eq-Keeps, eat_digits-Keeps,
  )

  followed-Keeps :
      (c : ℕ) (op : BinaryOperator) (other : M InputStream Token)
      → Keeps (Within n) other
      → Keeps (Within n) (followed c op other)
  unfolding followed
  followed-Keeps c op other h = search steps

  ruleset operators = (steps, followed-Keeps)

  pub lex_operator-Keeps : (c : ℕ) → Keeps (Within n) (lex_operator c)
  unfolding lex_operator lex_minus lex_less lex_greater lex_not
  lex_operator-Keeps c = search operators depth 40

  hex_escape-Keeps : (a b : ℕ) → Keeps (Within n) (hex_escape (some a) (some b))
  unfolding hex_escape
  hex_escape-Keeps a b =
      option-Keeps (Within n) (to_digit 16 a) _ _ (fail-Keeps (Within n) _ _) (λ x.
        option-Keeps (Within n) (to_digit 16 b) _ _ (fail-Keeps (Within n) _ _)
          (λ y. pure-Keeps (Within n) _))

  -- Where the second character is there, the first one is.
  hex_pair-Keeps : Keeps (Within n) (do a ← eat; b ← eat; hex_escape a b)
  unfolding Keeps
  hex_pair-Keeps s h = go s.eaten s.rest h
    where
      go :
          (e r : List ℕ)
          → length r ≤ n
          → Ensures
              (λ x. Within n x.1)
              (then_in (eat_from e r) (λ a. then_in (eat a.1) (λ b. hex_escape a.0 b.0 b.1)))
      go e [] h = unfold hex_escape in rejected
      go e (x ∷ []) h = unfold hex_escape in rejected
      go e (x ∷ y ∷ cs) h = hex_escape-Keeps x y _ (omega arith)

  escaped-Keeps : (c : Option ℕ) → Keeps (Within n) (escaped c)
  unfolding escaped
  escaped-Keeps none = search steps
  escaped-Keeps (some c) = search (steps, hex_pair-Keeps) depth 20

  pub parse_char_escape_sequence-Keeps : Keeps (Within n) parse_char_escape_sequence
  unfolding parse_char_escape_sequence
  parse_char_escape_sequence-Keeps = search (steps, escaped-Keeps)

  char_start-Keeps : (c : Option ℕ) → Keeps (Within n) (char_start c)
  unfolding char_start
  char_start-Keeps none = search steps
  char_start-Keeps (some c) = search (steps, parse_char_escape_sequence-Keeps)

  char_end-Keeps : (c : ℕ) (x : Option ℕ) → Keeps (Within n) (char_end c x)
  unfolding char_end
  char_end-Keeps c none = search steps
  char_end-Keeps c (some x) = search steps

  pub lex_char-Keeps : Keeps (Within n) lex_char
  unfolding lex_char
  lex_char-Keeps = search (steps, char_start-Keeps, char_end-Keeps)

  hex_prefix-Keeps : (hex : Bool) → Keeps (Within n) (hex_prefix hex)
  unfolding hex_prefix binary_prefix
  hex_prefix-Keeps hex = search steps depth 20

  radix_prefix-Keeps : (digits : List ℕ) → Keeps (Within n) (radix_prefix digits)
  unfolding radix_prefix
  radix_prefix-Keeps [] = search steps
  radix_prefix-Keeps (c ∷ []) = search (steps, hex_prefix-Keeps)
  radix_prefix-Keeps (c ∷ d ∷ cs) = search steps

  -- A dot that belongs to the operator `..` is put back.
  fraction-Keeps :
      (previous_dot : Bool) (radix : ℕ) → Keeps (Within n) (fraction previous_dot radix)
  unfolding fraction behind_dot Keeps eat_if_eq_from
  fraction-Keeps true radix s h = holds h
  fraction-Keeps false radix s h = go s.eaten s.rest h
    where
      go :
          (e r : List ℕ)
          → length r ≤ n
          → Ensures (λ x. Within n x.1) (fraction false radix (record { eaten = e; rest = r }))
      go e [] h = holds h
      go e (x ∷ cs) h = elim (Bool-cases (x == b'.')) [
        | inr q ↦ rw q (holds h)
        | inl q ↦ elim (Bool-cases (is_dot (first cs))) [
          | inl t ↦ rw (q, t) (holds h)
          | inr t ↦ rw (q, t) (holds (omega (arith, length-eat_digits_from radix (x ∷ e) cs)))
        ]
      ]

  exponent_radix-Keeps : (previous_dot : Bool) → Keeps (Within n) (exponent_radix previous_dot)
  unfolding exponent_radix
  exponent_radix-Keeps previous_dot = search steps depth 20

  exponent-Keeps : (exp_radix : ℕ) → Keeps (Within n) (exponent exp_radix)
  unfolding exponent
  exponent-Keeps exp_radix = search steps depth 20

  check_suffix-Keeps :
      (previous_dot range_dot : Bool) (next : Option ℕ)
      → Keeps (Within n) (check_suffix previous_dot range_dot next)
  unfolding check_suffix
  check_suffix-Keeps previous_dot range_dot none = search steps
  check_suffix-Keeps previous_dot range_dot (some c) = search steps depth 20

  number_token-Keeps :
      (radix : ℕ) (int_s : List ℕ) (fr : Fraction) (exp_radix : ℕ) (negative : Bool)
      (exp_s : List ℕ)
      → Keeps (Within n) (number_token radix int_s fr exp_radix negative exp_s)
  unfolding number_token
  number_token-Keeps radix int_s fr exp_radix negative exp_s =
      if-Keeps (Within n) (fr.has_dot || not (exp_radix == 0)) _ _ (pure-Keeps (Within n) _) (
        option-Keeps (Within n) (int_value radix 0 int_s) _ _ (fail-Keeps (Within n) _ _)
          (λ val. pure-Keeps (Within n) _))

  pub number_from-Keeps :
      (previous_dot : Bool) (decimal : List ℕ) → Keeps (Within n) (number_from previous_dot decimal)
  unfolding number_from
  number_from-Keeps previous_dot decimal =
      search
        (
          bind-Keeps, radix_prefix-Keeps, fraction-Keeps, exponent_radix-Keeps, exponent-Keeps,
          peek-Keeps, check_suffix-Keeps, number_token-Keeps,
        )
        depth 20
