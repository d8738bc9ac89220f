-- ===== src/Interp/Names.antt =====
-- Names of variables in the syntax of src/interp.rs.
use nnd.Base.{
  ℕ, zero, suc, ◌<◌, ◌≡◌, refl, ap, sym, Bool, true, false, ◌==◌, ◌||◌, [], ◌∷◌, ◌++◌, arith,
  length, All, append-nil, append_assoc,
}
use nnd.Interp.Lexer.{is_operator_start, is_bracket}
use nnd.Interp.Number.{is_letter, is_within, quoted_from, quoted_char, identifier_from}
use nnd.Interp.Result.{ok}
use nnd.Interp.Syntax.{Text}

abbrev pub is_word_start : ℕ → Bool
is_word_start c = is_letter c || c == b'#' || c == b'$'

abbrev pub is_word_char : ℕ → Bool
is_word_char c = is_letter c || c == b'#' || c == b'$' || is_within b'0' b'9' c

-- Neither a backquote nor a backslash.
abbrev pub Plain : ℕ → Type 0
Plain c = ((c == b'`') ≡ false) × ((c == b'\\') ≡ false)

pub quoted_from-Plain :
    (fuel : ℕ) (e s name : Text)
    → All Plain name
    → length name < fuel
    → (e' : Text) × (quoted_from fuel b'`' s (record { eaten = e; rest = name ++ b'`' ∷ [] })
        ≡ ok (s ++ name, record { eaten = e'; rest = [] }))
unfolding quoted_from quoted_char
quoted_from-Plain zero e s name h l = absurd (omega arith)
quoted_from-Plain (suc fuel) e s [] h l =
    (b'`' ∷ e, ap (λ z. ok (z, record { eaten = b'`' ∷ e; rest = [] })) (sym (append-nil s)))
quoted_from-Plain (suc fuel) e s (c ∷ name) h l =
    let (e', k) = quoted_from-Plain fuel (c ∷ e) (s ++ c ∷ []) name h.1 (omega arith) in
    (
      e',
      rw (h.0.0, h.0.1, k)
          (ap (λ z. ok (z, record { eaten = e'; rest = [] })) (append_assoc s (c ∷ []) name)),
    )

pub identifier_from-word :
    (e name : Text)
    → All (λ c. is_word_char c ≡ true) name
    → (e' : Text) × (identifier_from e name ≡ (name, record { eaten = e'; rest = [] }))
unfolding identifier_from
identifier_from-word e [] h = (e, refl)
identifier_from-word e (c ∷ []) h = (c ∷ e, rw h.0 refl)
identifier_from-word e (c ∷ d ∷ cs) h =
    let (e', k) = identifier_from-word (c ∷ e) (d ∷ cs) h.1 in (e', rw (h.0, k) refl)

pub is_operator_start-word : (c : ℕ) → is_word_start c ≡ true → is_operator_start c ≡ false
unfolding is_operator_start
is_operator_start-word c h = ground arith

pub is_bracket-word : (c : ℕ) → is_word_start c ≡ true → is_bracket c ≡ false
unfolding is_bracket
is_bracket-word c h = ground arith

pub digit-word : (c : ℕ) → is_word_start c ≡ true → is_within b'0' b'9' c ≡ false
digit-word c h = ground arith
