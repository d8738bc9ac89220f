-- ===== src/Interp/Integers.antt =====
-- The integers of src/interp.rs: reading digits against the number that they write.
use nnd.Base.{ℕ, ◌+◌, ◌*◌, [], ◌∷◌}
use nnd.Interp.Number.{digit_value}
use nnd.Interp.Syntax.{Text}

-- The number that the digits write behind what was read so far, however large.
abbrev pub written : ℕ → ℕ → Text → ℕ
written radix val [] = val
written radix val (c ∷ cs) = written radix (val * radix + digit_value radix c) cs
