-- ===== src/Registers.antt =====
-- The register names of src/registers.rs. A `RegisterIdx` is its number, a name the list of its
-- characters.
pub mod Sets
pub mod Known
pub mod Names
pub mod Extra
pub mod ExtraNames
pub mod Dwarf
use nnd.Base.{
  ℕ, suc, ◌+◌, Bool, true, false, leb, ◌==◌, ◌&&◌, if◌then◌else◌, List, [], ◌∷◌, Option, none, some,
  codes, get_elem?,
}

unfoldable pub register_names : List (List ℕ)
register_names =
    codes "rax"
    ∷ codes "rdx"
    ∷ codes "rcx"
    ∷ codes "rbx"
    ∷ codes "rsi"
    ∷ codes "rdi"
    ∷ codes "rbp"
    ∷ codes "rsp"
    ∷ codes "r8"
    ∷ codes "r9"
    ∷ codes "r10"
    ∷ codes "r11"
    ∷ codes "r12"
    ∷ codes "r13"
    ∷ codes "r14"
    ∷ codes "r15"
    ∷ codes "rip"
    ∷ codes "cs"
    ∷ codes "ss"
    ∷ codes "fs"
    ∷ codes "gs"
    ∷ codes "fs_base"
    ∷ codes "gs_base"
    ∷ codes "flags"
    ∷ codes "orig_rax"
    ∷ codes "cfa"
    ∷ codes "ret"
    ∷ []

unfoldable pub to_ascii_lowercase : ℕ → ℕ
to_ascii_lowercase c = if leb b'A' c && leb c b'Z' then c + 32 else c

unfoldable pub eq_ignore_ascii_case : List ℕ → List ℕ → Bool
unfolding to_ascii_lowercase
eq_ignore_ascii_case [] [] = true
eq_ignore_ascii_case (a ∷ s) (b ∷ t) =
    to_ascii_lowercase a == to_ascii_lowercase b && eq_ignore_ascii_case s t
eq_ignore_ascii_case _ _ = false

unfoldable pub position_from : ℕ → List ℕ → List (List ℕ) → Option ℕ
unfolding eq_ignore_ascii_case
position_from i s [] = none
position_from i s (n ∷ names) =
    let more = position_from (suc i) s names in if eq_ignore_ascii_case n s then some i else more

unfoldable pub parse_ignore_case : List ℕ → Option ℕ
unfolding position_from register_names
parse_ignore_case s = position_from 0 s register_names

-- The name of a register; the index is in range for each.
unfoldable pub name : ℕ → Option (List ℕ)
unfolding register_names
name idx = get_elem? register_names idx
