-- ===== src/GdbRemote/Yields.antt =====
-- How the functions of src/gdb_remote.rs on text end: with a value, an error, or a panic.
use nnd.Base.{◌≡◌, refl, Bool, true, false, Option, none, some, Bytes, ◌^◌, if◌then◌else◌}
use nnd.GdbRemote.Hex.{from_str_radix, parse_u64_hex}
use nnd.GdbRemote.Result.{Result, ok, err, GdbError, panicked, stuck, ◌>>=◌}

-- A value or an error of the code, or a panic where `P` allows it.
unfoldable pub Yields : Type 0 → {A : Type 0} → Result A → Type 0
Yields P (ok a) = Unit
Yields P (err e) = Unit
Yields P panicked = P
Yields P stuck = ⊥

pub ok-Yields : (P : Type 0) {A : Type 0} (a : A) → Yields P (ok a)
unfolding Yields
ok-Yields P a = tt

pub err-Yields : (P : Type 0) (A : Type 0) (e : GdbError) → Yields P {A = A} (err e)
unfolding Yields
err-Yields P A e = tt

pub bind-Yields :
    (P : Type 0) {A B : Type 0} (r : Result A) (f : A → Result B)
    → Yields P r
    → ((a : A) → Yields P (f a))
    → Yields P (r >>= f)
unfolding Yields
bind-Yields P (ok a) f h k = k a
bind-Yields P (err e) f h k = tt
bind-Yields P panicked f h k = h
bind-Yields P stuck f h k = h

pub if-Yields :
    (P : Type 0) {A : Type 0} (b : Bool) (r s : Result A)
    → (b ≡ true → Yields P r)
    → (b ≡ false → Yields P s)
    → Yields P (if b then r else s)
if-Yields P true r s h k = h refl
if-Yields P false r s h k = k refl

pub option-Yields :
    (P : Type 0) {A B : Type 0} (o : Option A) (r : Result B) (f : A → Result B)
    → (o ≡ none → Yields P r)
    → ((a : A) → Yields P (f a))
    → Yields P (elim o [ none ↦ r | some a ↦ f a ])
option-Yields P none r f h k = h refl
option-Yields P (some a) r f h k = k a

pub parse_u64_hex-Yields : (P : Type 0) (s : Bytes) → Yields P (parse_u64_hex s)
unfolding parse_u64_hex
parse_u64_hex-Yields P s =
    option-Yields P (from_str_radix (2 ^ 64) s) _ _ (λ _. err-Yields P _ _) (λ v. ok-Yields P v)
