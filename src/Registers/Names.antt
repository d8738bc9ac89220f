-- ===== src/Registers/Names.antt =====
-- The names of src/registers.rs are parsed back, in capitals or not.
use nnd.Base.{
  ℕ, suc, ◌<◌, ◌≡◌, refl, ap, ◌∙◌, Bool, true, false, ◌==◌, List, [], ◌∷◌, Option, none, some,
  arith, ==_iff, all_below, all_below_sound, subst,
}
use nnd.Registers.{register_names, eq_ignore_ascii_case, position_from, parse_ignore_case, name}

-- Two texts that are the same but for case are compared alike with every other.
eq_ignore_ascii_case_like :
    (a s n : List ℕ)
    → eq_ignore_ascii_case a s ≡ true
    → eq_ignore_ascii_case n s ≡ eq_ignore_ascii_case n a
unfolding eq_ignore_ascii_case
eq_ignore_ascii_case_like [] [] n h = refl
eq_ignore_ascii_case_like [] (b ∷ s) n h = cc
eq_ignore_ascii_case_like (b ∷ a) [] n h = cc
eq_ignore_ascii_case_like (b ∷ a) (c ∷ s) [] h = refl
eq_ignore_ascii_case_like (b ∷ a) (c ∷ s) (d ∷ n) h =
    ground (arith, h, eq_ignore_ascii_case_like a s n)

position_from_like :
    (i : ℕ) (a s : List ℕ) (names : List (List ℕ))
    → eq_ignore_ascii_case a s ≡ true
    → position_from i s names ≡ position_from i a names
unfolding position_from
position_from_like i a s [] h = refl
position_from_like i a s (n ∷ names) h =
    rw (eq_ignore_ascii_case_like a s n h, position_from_like (suc i) a s names h) refl

abbrev parsed_as : ℕ → Option ℕ → Bool
parsed_as i none = false
parsed_as i (some j) = j == i

abbrev parsed_back : ℕ → Option (List ℕ) → Bool
parsed_back i none = false
parsed_back i (some n) = parsed_as i (parse_ignore_case n)

all_parsed_back : all_below 27 (λ i. parsed_back i (name i)) ≡ true
unfolding all_below name parse_ignore_case
all_parsed_back = refl

parsed_as-some : (i : ℕ) (o : Option ℕ) → parsed_as i o ≡ true → o ≡ some i
parsed_as-some i none h = cc
parsed_as-some i (some j) h = ap some ((==_iff j i).0 h)

-- The name of a register, in whatever case, is parsed as that register.
parse_ignore_case-name :
    (idx : ℕ) (n s : List ℕ)
    → idx < 27
    → name idx ≡ some n
    → eq_ignore_ascii_case n s ≡ true
    → parse_ignore_case s ≡ some idx
unfolding parse_ignore_case
parse_ignore_case-name idx n s h e k =
    position_from_like 0 n s register_names k
    ∙ parsed_as-some idx (parse_ignore_case n) (
        subst (λ o. parsed_back idx o ≡ true) e
          (all_below_sound 27 (λ i. parsed_back i (name i)) idx all_parsed_back h))
