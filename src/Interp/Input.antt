-- ===== src/Interp/Input.antt =====
-- `InputStream` of src/interp.rs: the characters that were eaten, the last one first, and those that
-- are left. The position in the text is the number of bytes of the former.
use nnd.Base.{
  ℕ, ◌+◌, ◌-◌, Bool, true, false, ltb, leb, ◌==◌, ◌&&◌, if◌then◌else◌, [], ◌∷◌, Option, none, some,
}
use nnd.Interp.Result.{Result, ok, panicked, M}
use nnd.Interp.Syntax.{Text}

pub record InputStream : Type 0 where
  pub eaten : Text
  pub rest : Text

-- The bytes of a character in UTF-8.
unfoldable pub utf8_len : ℕ → ℕ
utf8_len c = if ltb c 0x80 then 1 else if ltb c 0x800 then 2 else if ltb c 0x10000 then 3 else 4

unfoldable pub size : Text → ℕ
unfolding utf8_len
size [] = 0
size (c ∷ cs) = utf8_len c + size cs

unfoldable pub pos : InputStream → ℕ
unfolding size
pos s = size s.eaten

abbrev pub first : Text → Option ℕ
first [] = none
first (c ∷ cs) = some c

abbrev pub peek : M InputStream (Option ℕ)
peek s = ok (first s.rest, s)

abbrev pub eat_from : Text → Text → Result (Option ℕ × InputStream)
eat_from eaten [] = ok (none, record { eaten = eaten; rest = [] })
eat_from eaten (c ∷ cs) = ok (some c, record { eaten = c ∷ eaten; rest = cs })

abbrev pub eat : M InputStream (Option ℕ)
eat s = eat_from s.eaten s.rest

-- The assertion fails at the start of the text.
abbrev pub uneat_from : Text → Text → Result (Unit {0} × InputStream)
uneat_from [] rest = panicked
uneat_from (c ∷ cs) rest = ok (tt, record { eaten = cs; rest = c ∷ rest })

abbrev pub uneat : M InputStream (Unit {0})
uneat s = uneat_from s.eaten s.rest

unfoldable pub eat_if_eq_from : ℕ → Text → Text → Result (Bool × InputStream)
eat_if_eq_from c eaten [] = ok (false, record { eaten = eaten; rest = [] })
eat_if_eq_from c eaten (x ∷ cs) =
    if x == c
    then ok (true, record { eaten = x ∷ eaten; rest = cs })
    else ok (false, record { eaten = eaten; rest = x ∷ cs })

abbrev pub eat_if_eq : ℕ → M InputStream Bool
eat_if_eq c s = eat_if_eq_from c s.eaten s.rest

-- `to_digit`, where `radix` is at most 16.
unfoldable pub to_digit : ℕ → ℕ → Option ℕ
to_digit radix c =
    let d =
      if leb b'0' c && leb c b'9'
      then c - b'0'
      else if leb b'a' c && leb c b'z'
      then c - b'a' + 10
      else if leb b'A' c && leb c b'Z'
      then c - b'A' + 10
      else radix in
    if ltb d radix then some d else none

abbrev pub is_some : Option ℕ → Bool
is_some none = false
is_some (some d) = true

unfoldable pub is_digit : ℕ → ℕ → Bool
unfolding to_digit
is_digit radix c = is_some (to_digit radix c)

unfoldable pub eat_digits_from : ℕ → Text → Text → Text × InputStream
unfolding is_digit
eat_digits_from radix eaten [] = ([], record { eaten = eaten; rest = [] })
eat_digits_from radix eaten (c ∷ cs) =
    let more = eat_digits_from radix (c ∷ eaten) cs in
    if is_digit radix c then (c ∷ more.0, more.1) else ([], record { eaten = eaten; rest = c ∷ cs })

abbrev pub eat_digits : ℕ → M InputStream Text
eat_digits radix s = ok (eat_digits_from radix s.eaten s.rest)
