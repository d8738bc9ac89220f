-- ===== src/Interp/Tokens.antt =====
-- The tokens of src/interp.rs on any text: each begins with a character that it takes off the text.
use nnd.Base.{
  ℕ, zero, suc, ◌≤◌, ◌<◌, ◌≡◌, refl, Bool, true, false, ◌==◌, ◌||◌, if◌then◌else◌, List, [], ◌∷◌,
  ◌++◌, arith, length, Bool-cases, inl, inr, ==_iff,
}
use nnd.Interp.Input.{InputStream, eat_from, eat_digits_from, first, is_digit, to_digit}
use nnd.Interp.Keeps.{Keeps, Ensures-then_in, Ensures-mono}
use nnd.Interp.Lexer.{lex_token, lex_colon, is_colon, is_operator_start, is_bracket}
use nnd.Interp.Lexing.{
  Within, lex_operator-Keeps, parse_char_escape_sequence-Keeps, lex_char-Keeps, number_from-Keeps,
  length-eat_digits_from,
}
use nnd.Interp.Number.{
  quoted_char, quoted_from, lex_quoted, lex_number, lex_identifier, identifier_from, is_letter,
  is_within,
}
use nnd.Interp.Result.{Result, ok, M, Ensures, holds, rejected, then_in}
use nnd.Interp.Token.{Token}

Within-mono :
    {A : Type 0} (m n : ℕ) (r : Result (A × InputStream))
    → m ≤ n
    → Ensures (λ x. Within m x.1) r
    → Ensures (λ x. Within n x.1) r
Within-mono m n r l h =
    Ensures-mono (λ x. Within m x.1) (λ x. Within n x.1) r h (λ _ k. omega arith)

-- Behind an opening quote the text is read to its end, with as much fuel as there are characters.
quoted_from-Keeps :
    (fuel n close : ℕ) (s : List ℕ) → n < fuel → Keeps (Within n) (quoted_from fuel close s)
unfolding Keeps quoted_from quoted_char
quoted_from-Keeps zero n close s l input i = absurd (omega arith)
quoted_from-Keeps (suc fuel) n close s l input i =
    go (λ m t. quoted_from-Keeps fuel m close t) input.eaten input.rest i
  where
    go :
        ((m : ℕ) (t : List ℕ)
          → m < fuel
          → (j : InputStream) → Within m j
          → Ensures (λ x. Within m x.1) (quoted_from fuel close t j))
        → (e r : List ℕ) → length r ≤ n
        → Ensures
            (λ x. Within n x.1)
            (then_in (eat_from e r) (λ x. quoted_char (quoted_from fuel close) close s x.0 x.1))
    go ih e [] h = rejected
    go ih e (c ∷ cs) h = elim (Bool-cases (c == close)) [
      | inl p ↦ rw p (holds (omega arith))
      | inr p ↦ elim (Bool-cases (c == b'\\')) [
        | inl q ↦
            let m = length cs in
            let l' : m < fuel = omega arith in
            let u : m ≤ n = omega arith in
            rw (p, q)
              (Within-mono m n _ u (
                Ensures-then_in (λ x. Within m x.1) (λ x. Within m x.1) _
                  (λ x. quoted_from fuel close (s ++ x.0 ∷ []) x.1)
                  (parse_char_escape_sequence-Keeps m (record { eaten = c ∷ e; rest = cs })
                    (omega arith))
                  (λ x k. ih m (s ++ x.0 ∷ []) l' x.1 k)))
        | inr q ↦
            let m = length cs in
            let l' : m < fuel = omega arith in
            let u : m ≤ n = omega arith in
            rw (p, q)
              (Within-mono m n _ u
                (ih m (s ++ c ∷ []) l' (record { eaten = c ∷ e; rest = cs }) (omega arith)))
      ]
    ]

length-identifier_from : (e r : List ℕ) → length (identifier_from e r).1.rest ≤ length r
unfolding identifier_from
length-identifier_from e [] = omega arith
length-identifier_from e (c ∷ []) = ground arith
length-identifier_from e (c ∷ d ∷ cs) =
    ground (arith, length-identifier_from (c ∷ e) (d ∷ cs), length-identifier_from (d ∷ c ∷ e) cs)

abbrev is_identifier_char : ℕ → Bool
is_identifier_char c = is_letter c || c == b'#' || c == b'$' || is_within b'0' b'9' c

-- A character that may stand in an identifier is taken.
length-identifier_from_char :
    (e : List ℕ) (c : ℕ) (cs : List ℕ)
    → is_identifier_char c ≡ true
    → length (identifier_from e (c ∷ cs)).1.rest ≤ length cs
unfolding identifier_from
length-identifier_from_char e c [] h = rw h (omega arith)
length-identifier_from_char e c (d ∷ cs) h = rw h (length-identifier_from (c ∷ e) (d ∷ cs))

-- And so are two colons.
length-identifier_from_colons :
    (e : List ℕ) (c d : ℕ) (cs : List ℕ)
    → c ≡ b':'
    → (d == b':') ≡ true
    → length (identifier_from e (c ∷ d ∷ cs)).1.rest ≤ length (d ∷ cs)
unfolding identifier_from
length-identifier_from_colons e c d cs h k =
    rw (h, k) (omega (arith, length-identifier_from (d ∷ b':' ∷ e) cs))

pub if-apply :
    {S A : Type 0} (P : A × S → Type 0) (b : Bool) (m n : M S A) (s : S)
    → (b ≡ true → Ensures P (m s))
    → (b ≡ false → Ensures P (n s))
    → Ensures P ((if b then m else n) s)
if-apply P true m n s h k = h refl
if-apply P false m n s h k = k refl

-- The state behind the first character of a token.
abbrev pub behind : ℕ → List ℕ → List ℕ → InputStream
behind c e cs = record { eaten = c ∷ e; rest = cs }

lex_number-Ensures :
    (previous_dot : Bool) (c : ℕ) (e cs : List ℕ)
    → is_digit 10 c ≡ true
    → Ensures (λ x. Within (length cs) x.1) (lex_number previous_dot (behind c e cs))
unfolding lex_number eat_digits_from Keeps
lex_number-Ensures previous_dot c e cs h =
    let more = eat_digits_from 10 (c ∷ e) cs in
    rw h (
      number_from-Keeps (length cs) previous_dot (c ∷ more.0) more.1
        (length-eat_digits_from 0 10 (c ∷ e) cs))

is_digit-decimal : (c : ℕ) → is_within b'0' b'9' c ≡ true → is_digit 10 c ≡ true
unfolding is_digit to_digit
is_digit-decimal c h = ground arith

abbrev pub Left : ℕ → Token × InputStream → Type 0
Left n x = Within n x.1

lex_quoted-Ensures :
    (close c : ℕ) (e cs : List ℕ) (f : List ℕ → Token)
    → Ensures (Left (length cs)) (then_in (lex_quoted close (behind c e cs)) (λ x. ok (f x.0, x.1)))
unfolding lex_quoted Keeps
lex_quoted-Ensures close c e cs f =
    Ensures-then_in (λ x. Within (length cs) x.1) (Left (length cs))
      (lex_quoted close (behind c e cs)) (λ x. ok (f x.0, x.1))
      (quoted_from-Keeps (suc (length cs)) (length cs) close [] (omega arith) (behind c e cs)
        (omega arith))
      (λ _ k. holds k)

lex_identifier-Ensures :
    (c : ℕ) (e cs : List ℕ)
    → length (identifier_from e (c ∷ cs)).1.rest ≤ length cs
    → Ensures (λ x. Within (length cs) x.1) (lex_identifier (behind c e cs))
unfolding lex_identifier
lex_identifier-Ensures c e cs h = holds h

lex_colon-Ensures :
    (c : ℕ) (e cs : List ℕ)
    → c ≡ b':'
    → Ensures (λ x. Within (length cs) x.1) (lex_colon (first cs) (behind c e cs))
unfolding lex_colon is_colon
lex_colon-Ensures c e [] h = holds (omega arith)
lex_colon-Ensures c e (d ∷ cs) h = elim (Bool-cases (d == b':')) [
  | inl q ↦ rw q (lex_identifier-Ensures c e (d ∷ cs) (length-identifier_from_colons e c d cs h q))
  | inr q ↦ rw q (holds (omega arith))
]

is_identifier_char-word :
    (c : ℕ) → (is_letter c || c == b'#' || c == b'$') ≡ true → is_identifier_char c ≡ true
is_identifier_char-word c h = ground arith

-- A token takes off the text its first character at least.
pub lex_token-Ensures :
    (previous_dot : Bool) (c : ℕ) (e cs : List ℕ)
    → Ensures (λ x. Within (length cs) x.1) (lex_token previous_dot c (behind c e cs))
unfolding lex_token Keeps
lex_token-Ensures previous_dot c e cs =
    if-apply P (is_operator_start c) _ _ b (λ _. lex_operator-Keeps n c b (omega arith))
      (λ _.
        if-apply P (is_bracket c) _ _ b (λ _. holds (omega arith))
          (λ _.
            if-apply P (c == b':') _ _ b (λ q. lex_colon-Ensures c e cs ((==_iff c b':').0 q))
              (λ _.
                if-apply P (c == b'"') _ _ b (λ _. lex_quoted-Ensures b'"' c e cs _)
                  (λ _.
                    if-apply P (c == b'\'') _ _ b (λ _. lex_char-Keeps n b (omega arith))
                      (λ _.
                        if-apply P (is_within b'0' b'9' c) _ _ b
                          (λ q. lex_number-Ensures previous_dot c e cs (is_digit-decimal c q))
                          (λ _.
                            if-apply P (c == b'`') _ _ b (λ _. lex_quoted-Ensures b'`' c e cs _)
                              (λ _.
                                if-apply P (is_letter c || c == b'#' || c == b'$') _ _ b
                                  (λ q. lex_identifier-Ensures c e cs (
                                    length-identifier_from_char e c cs
                                      (is_identifier_char-word c q)))
                                  (λ _. rejected))))))))
  where
    n : ℕ
    n = length cs

    b : InputStream
    b = behind c e cs

    P : Token × InputStream → Type 0
    P x = Within n x.1
