-- ===== src/Interp/Number.antt =====
-- The literals of src/interp.rs: numbers, characters, texts and identifiers, as `Lexer::peek` reads
-- them.
use nnd.Base.{
  ℕ, zero, suc, ◌+◌, ◌-◌, ◌*◌, ◌%◌, ◌^◌, min, Bool, true, false, not, ltb, leb, ◌==◌, ◌&&◌, ◌||◌,
  if◌then◌else◌, [], ◌∷◌, ◌++◌, Option, none, some, length,
}
use nnd.Interp.Input.{InputStream, peek, eat, uneat, eat_if_eq, eat_digits, to_digit}
use nnd.Interp.Result.{
  ok, stuck, M, ◌>>=◌, ◌>>◌, pure, fail, panic, unterminated, empty_char, long_char, bad_escape,
  unexpected_suffix, unexpected_dot, big_integer,
}
use nnd.Interp.Syntax.{Text, u, f, basic, char}
use nnd.Interp.Token.{Token, literal, identifier}

abbrev pub is_within : ℕ → ℕ → ℕ → Bool
is_within lo hi c = leb lo c && leb c hi

abbrev pub is_letter : ℕ → Bool
is_letter c = is_within b'a' b'z' c || is_within b'A' b'Z' c || c == b'_'

-- Behind `0`, where `hex` says that an `x` followed and `bin` that a `b` did.
unfoldable pub binary_prefix : Bool → M InputStream (ℕ × Text)
binary_prefix bin = if bin then (do int_s ← eat_digits 2; pure (2, int_s)) else pure (10, b'0' ∷ [])

unfoldable pub hex_prefix : Bool → M InputStream (ℕ × Text)
unfolding binary_prefix
hex_prefix hex =
    if hex then (do int_s ← eat_digits 16; pure (16, int_s)) else eat_if_eq b'b' >>= binary_prefix

-- The radix and the digits, which may stand behind a prefix `0x` or `0b`.
unfoldable pub radix_prefix : Text → M InputStream (ℕ × Text)
unfolding hex_prefix
radix_prefix [] = pure (10, [])
radix_prefix (c ∷ []) = if c == b'0' then eat_if_eq b'x' >>= hex_prefix else pure (10, c ∷ [])
radix_prefix (c ∷ d ∷ cs) = pure (10, c ∷ d ∷ cs)

-- What stands behind the digits of a number: whether a dot, the digits behind it, and whether the
-- operator `..`.
pub record Fraction : Type 0 where
  pub has_dot : Bool
  pub frac_s : Text
  pub range_dot : Bool

abbrev no_fraction : Fraction
no_fraction = record { has_dot = false; frac_s = []; range_dot = false }

unfoldable pub is_dot : Option ℕ → Bool
is_dot none = false
is_dot (some c) = c == b'.'

unfoldable pub behind_dot : ℕ → Option ℕ → M InputStream Fraction
unfolding is_dot
behind_dot radix next =
    if is_dot next then (do uneat; pure (record no_fraction { range_dot = true })) else (do
      frac_s ← eat_digits radix
      pure (record { has_dot = true; frac_s = frac_s; range_dot = false }))

unfoldable pub fraction : Bool → ℕ → M InputStream Fraction
unfolding behind_dot
fraction previous_dot radix =
    if previous_dot
    then pure no_fraction
    else (do dot ← eat_if_eq b'.'; if dot then peek >>= behind_dot radix else pure no_fraction)

-- The radix of the exponent, 0 if there is none.
unfoldable pub exponent_radix : Bool → M InputStream ℕ
exponent_radix previous_dot = do
  e ← (if previous_dot then pure false else eat_if_eq b'e')
  if e then pure 10 else (do p ← eat_if_eq b'p'; pure (if p then 2 else 0))

-- The sign and the digits of the exponent.
unfoldable pub exponent : ℕ → M InputStream (Bool × Text)
exponent exp_radix =
    if exp_radix == 0
    then pure (false, [])
    else (do negative ← eat_if_eq b'-'; exp_s ← eat_digits 10; pure (negative, exp_s))

unfoldable pub check_suffix : Bool → Bool → Option ℕ → M InputStream (Unit {0})
check_suffix previous_dot range_dot none = pure tt
check_suffix previous_dot range_dot (some c) =
    if is_within b'0' b'9' c || is_letter c
    then fail unexpected_suffix
    else if c == b'.' && not previous_dot && not range_dot
    then fail unexpected_dot
    else pure tt

-- `to_digit(radix).unwrap()`, on digits only.
abbrev pub digit_value : ℕ → ℕ → ℕ
digit_value radix c = elim (to_digit radix c) [ none ↦ 0 | some d ↦ d ]

-- `exp.saturating_mul(10).saturating_add(d)` on an `i32` that is not negative.
unfoldable pub saturating_exp : ℕ → Text → ℕ
saturating_exp exp [] = exp
saturating_exp exp (c ∷ cs) =
    saturating_exp (min (min (exp * 10) (2 ^ 31 - 1) + digit_value 10 c) (2 ^ 31 - 1)) cs

-- The checked product and sum of a `usize`.
unfoldable pub int_value : ℕ → ℕ → Text → Option ℕ
int_value radix val [] = some val
int_value radix val (c ∷ cs) =
    let next = val * radix + digit_value radix c in
    let more = int_value radix next cs in if ltb next (2 ^ 64) then more else none

unfoldable pub number_token : ℕ → Text → Fraction → ℕ → Bool → Text → M InputStream Token
unfolding saturating_exp int_value
number_token radix int_s fr exp_radix negative exp_s =
    if fr.has_dot || not (exp_radix == 0)
    then pure (
        literal (
          basic (
            f (record {
              radix = radix;
              int_s = int_s;
              frac_s = fr.frac_s;
              exp_radix = exp_radix;
              exp_negative = negative;
              exp = saturating_exp 0 exp_s;
            }))))
    else elim (int_value radix 0 int_s) [
      | none ↦ fail big_integer
      | some val ↦ pure (literal (basic (u val)))
    ]

-- Behind the decimal digits at the front.
unfoldable pub number_from : Bool → Text → M InputStream Token
unfolding radix_prefix fraction exponent_radix exponent check_suffix number_token
number_from previous_dot decimal = do
  number ← radix_prefix decimal
  fr ← fraction previous_dot number.0
  exp_radix ← exponent_radix previous_dot
  ex ← exponent exp_radix
  next ← peek
  check_suffix previous_dot fr.range_dot next
  number_token number.0 number.1 fr exp_radix ex.0 ex.1

unfoldable pub lex_number : Bool → M InputStream Token
unfolding number_from
lex_number previous_dot = do uneat; decimal ← eat_digits 10; number_from previous_dot decimal

-- The two characters behind `\x`.
unfoldable pub hex_escape : Option ℕ → Option ℕ → M InputStream ℕ
hex_escape a none = fail unterminated
hex_escape none (some b) = panic
hex_escape (some a) (some b) = elim (to_digit 16 a) [
  | none ↦ fail bad_escape
  | some x ↦ elim (to_digit 16 b) [ none ↦ fail bad_escape | some y ↦ pure ((x * 16 + y) % 256) ]
]

unfoldable pub escaped : Option ℕ → M InputStream ℕ
unfolding hex_escape
escaped none = fail unterminated
escaped (some c) =
    if c == b'0'
    then pure 0
    else if c == b'n'
    then pure 10
    else if c == b'r'
    then pure 13
    else if c == b't'
    then pure 9
    else if c == b'x'
    then (do a ← eat; b ← eat; hex_escape a b)
    else pure c

unfoldable pub parse_char_escape_sequence : M InputStream ℕ
unfolding escaped
parse_char_escape_sequence = eat >>= escaped

-- A character of a quoted text, `again` being the loop with it at the end.
unfoldable pub quoted_char : (Text → M InputStream Text) → ℕ → Text → Option ℕ → M InputStream Text
quoted_char again close s none = fail unterminated
quoted_char again close s (some c) =
    if c == close
    then pure s
    else if c == b'\\'
    then parse_char_escape_sequence >>= (λ e. again (s ++ e ∷ []))
    else again (s ++ c ∷ [])

-- The text up to the closing quote. Each round eats a character.
unfoldable pub quoted_from : ℕ → ℕ → Text → M InputStream Text
unfolding quoted_char
quoted_from zero close s input = stuck
quoted_from (suc fuel) close s input = (eat >>= quoted_char (quoted_from fuel close) close s) input

unfoldable pub lex_quoted : ℕ → M InputStream Text
unfolding quoted_from
lex_quoted close input = quoted_from (suc (length input.rest)) close [] input

unfoldable pub char_end : ℕ → Option ℕ → M InputStream Token
char_end c none = fail unterminated
char_end c (some x) = if x == b'\'' then pure (literal (char c)) else fail long_char

unfoldable pub char_start : Option ℕ → M InputStream ℕ
unfolding parse_char_escape_sequence
char_start none = fail unterminated
char_start (some c) =
    if c == b'\''
    then fail empty_char
    else if c == b'\\'
    then parse_char_escape_sequence
    else pure c

unfoldable pub lex_char : M InputStream Token
unfolding char_start char_end
lex_char = do x ← eat; c ← char_start x; y ← eat; char_end c y

-- The characters of an identifier from `eaten` on, `::` among them and no lone colon.
unfoldable pub identifier_from : Text → Text → Text × InputStream
identifier_from eaten [] = ([], record { eaten = eaten; rest = [] })
identifier_from eaten (c ∷ []) =
    if is_letter c || c == b'#' || c == b'$' || is_within b'0' b'9' c
    then (c ∷ [], record { eaten = c ∷ eaten; rest = [] })
    else ([], record { eaten = eaten; rest = c ∷ [] })
identifier_from eaten (c ∷ d ∷ cs) =
    let more = identifier_from (c ∷ eaten) (d ∷ cs) in
    let behind = identifier_from (d ∷ c ∷ eaten) cs in
    if is_letter c || c == b'#' || c == b'$' || is_within b'0' b'9' c
    then (c ∷ more.0, more.1)
    else if c == b':' && d == b':'
    then (c ∷ c ∷ behind.0, behind.1)
    else ([], record { eaten = eaten; rest = c ∷ d ∷ cs })

unfoldable pub lex_identifier : M InputStream Token
unfolding identifier_from
lex_identifier = do
  uneat
  s ← (λ input. ok (identifier_from input.eaten input.rest))
  pure (identifier s false)
