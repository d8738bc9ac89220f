-- ===== src/GdbRemote/StopText.antt =====
-- `parse_stop_reply` of src/gdb_remote.rs on any bytes: where it gives a result, and where its
-- slices of the text panic.
use nnd.Base.{
  ℕ, zero, suc, ◌≤◌, ◌<◌, ◌≡◌, refl, true, false, not, ◌==◌, ◌||◌, ◌&&◌, List, [], ◌∷◌, Option,
  none, some, ◌⊎◌, inl, inr, arith, Bytes, All, length, ltb, leb, take, drop, ◌-◌, ◌^◌, codes,
}
use nnd.GdbRemote.Ascii.{IsAscii, from_utf8_lossy_ascii}
use nnd.GdbRemote.Hex.{from_str_radix}
use nnd.GdbRemote.Result.{Result, panicked}
use nnd.GdbRemote.StopReply.{
  Fields, thread_text, parse_thread, parse_field, parse_fields, parse_signal, parse_stop_text,
  parse_stop_reply,
}
use nnd.GdbRemote.Yields.{
  Yields, ok-Yields, err-Yields, bind-Yields, if-Yields, option-Yields, parse_u64_hex-Yields,
}
use nnd.GdbRemote.Text.{
  char_chunk, lossy_from, from_utf8_lossy, slice, is_char_boundary, split, bytes_eq,
}

parse_thread-Yields : (P : Type 0) (f : Fields) (v : Option Bytes) → Yields P (parse_thread f v)
unfolding parse_thread
parse_thread-Yields P f none = ok-Yields P f
parse_thread-Yields P f (some v) =
    let t = thread_text v in
    if-Yields P (not (bytes_eq t (codes "0")) && not (bytes_eq t (codes "-1"))) _ _
      (λ _.
        bind-Yields P _ _ (parse_u64_hex-Yields P t)
          (λ id. ok-Yields P (record f { thread = some id })))
      (λ _. ok-Yields P f)

parse_field-Yields :
    (P : Type 0) (f : Fields) (field : Bytes × Option Bytes) → Yields P (parse_field f field)
unfolding parse_field
parse_field-Yields P f (name, value) =
    if-Yields P (bytes_eq name (codes "thread")) _ _ (λ _. parse_thread-Yields P f value)
      (λ _.
        if-Yields P (bytes_eq name (codes "swbreak")) _ _ (λ _. ok-Yields P _)
          (λ _.
            if-Yields P (bytes_eq name (codes "hwbreak")) _ _ (λ _. ok-Yields P _)
              (λ _.
                if-Yields P
                  (bytes_eq name (codes "watch")
                    || bytes_eq name (codes "rwatch")
                    || bytes_eq name (codes "awatch"))
                  _ _ (λ _. ok-Yields P _) (λ _. ok-Yields P f))))

parse_fields-Yields :
    (P : Type 0) (f : Fields) (pieces : List Bytes) → Yields P (parse_fields f pieces)
unfolding parse_fields
parse_fields-Yields P f [] = ok-Yields P f
parse_fields-Yields P f ([] ∷ pieces) = parse_fields-Yields P f pieces
parse_fields-Yields P f ((b ∷ bs) ∷ pieces) =
    bind-Yields P _ _ (parse_field-Yields P f _) (λ g. parse_fields-Yields P g pieces)

-- A slice that is a panic where `P` allows it, and the parser behind it.
slice-Yields :
    (P : Type 0) {A : Type 0} (o : Option Bytes) (f : Bytes → Result A)
    → (o ≡ none → P)
    → ((s : Bytes) → Yields P (f s))
    → Yields P (elim o [ none ↦ panicked | some s ↦ f s ])
slice-Yields P o f h k = option-Yields P o panicked f (λ e. unfold Yields in h e) k

parse_signal-Yields :
    (P : Type 0) (s : Bytes)
    → (slice s 1 3 ≡ none → P)
    → (slice s 3 (length s) ≡ none → P)
    → Yields P (parse_signal s)
unfolding parse_signal
parse_signal-Yields P s h k = slice-Yields P (slice s 1 3) _ h (λ digits.
    option-Yields P (from_str_radix (2 ^ 8) digits) _ _ (λ _. err-Yields P _ _)
      (λ sig. slice-Yields P (slice s 3 (length s)) _ k (λ rest.
        bind-Yields P _ _ (parse_fields-Yields P _ (split b';' rest)) (λ _. ok-Yields P _))))

parse_stop_text-Yields :
    (P : Type 0) (s : Bytes)
    → (3 ≤ length s → slice s 1 3 ≡ none → P)
    → (3 ≤ length s → slice s 3 (length s) ≡ none → P)
    → Yields P (parse_stop_text s)
unfolding parse_stop_text
parse_stop_text-Yields P [] h k = err-Yields P _ _
parse_stop_text-Yields P (b ∷ bs) h k =
    if-Yields P (not (b == b'T') && not (b == b'S')) _ _ (λ _. err-Yields P _ _)
      (λ _.
        if-Yields P (ltb (length (b ∷ bs)) 3) _ _ (λ _. err-Yields P _ _)
          (λ e.
            let l : 3 ≤ length (b ∷ bs) = ground arith in
            parse_signal-Yields P (b ∷ bs) (h l) (k l)))

-- On any bytes the parser ends: with a value, an error or the panic of a slice.
pub parse_stop_reply-Yields : (packet : Bytes) → Yields Unit (parse_stop_reply packet)
unfolding parse_stop_reply
parse_stop_reply-Yields packet =
    parse_stop_text-Yields Unit (from_utf8_lossy packet) (λ _ _. tt) (λ _ _. tt)

is_char_boundary_ascii :
    (s : Bytes) (i : ℕ) → All IsAscii s → i ≤ length s → is_char_boundary s i ≡ true
unfolding is_char_boundary
is_char_boundary_ascii s zero a h = refl
is_char_boundary_ascii [] (suc i) a h = absurd (omega arith)
is_char_boundary_ascii (b ∷ []) (suc zero) a h = refl
is_char_boundary_ascii (b ∷ c ∷ rest) (suc zero) a h = let l : c < 128 = a.1.0 in ground arith
is_char_boundary_ascii (b ∷ rest) (suc (suc i)) a h =
    is_char_boundary_ascii rest (suc i) a.1 (omega arith)

slice_ascii :
    (s : Bytes) (from to : ℕ)
    → All IsAscii s
    → from ≤ to
    → to ≤ length s
    → slice s from to ≡ some (take (to - from) (drop from s))
unfolding slice
slice_ascii s from to a h l =
    let le : leb from to ≡ true = ground arith in
    rw (le, is_char_boundary_ascii s from a (omega arith), is_char_boundary_ascii s to a l)

-- ASCII packets never panic: each is parsed or refused with an error.
pub parse_stop_reply_ascii :
    (packet : Bytes) → All IsAscii packet → Yields ⊥ (parse_stop_reply packet)
unfolding parse_stop_reply
parse_stop_reply_ascii packet a = rw (from_utf8_lossy_ascii packet a) (
    parse_stop_text-Yields ⊥ packet (λ l e. let f = slice_ascii packet 1 3 a (omega arith) l in cc)
      (λ l e. let f = slice_ascii packet 3 (length packet) a l (omega arith) in cc))

-- A byte that begins no character.
abbrev pub IsStray : ℕ → Type 0
IsStray b = (128 ≤ b) × (b < 194)

lossy_stray :
    (n b : ℕ) (rest : Bytes)
    → IsStray b
    → lossy_from (suc n) (b ∷ rest) ≡ 0xef ∷ 0xbf ∷ 0xbd ∷ lossy_from n rest
unfolding lossy_from char_chunk
lossy_stray n b rest h =
    let e : ltb b 128 ≡ false = ground arith in
    let f : leb 0xc2 b ≡ false = ground arith in
    let g : leb 0xe0 b ≡ false = ground arith in
    let i : leb 0xf0 b ≡ false = ground arith in rw (e, f, g, i)

long_enough : (s : Bytes) → ltb (suc (suc (suc (suc (length s))))) 3 ≡ false
long_enough s = ground arith

-- A stop reply with a byte behind its letter that begins no character panics.
pub parse_stop_reply-panicked :
    (lead b : ℕ) (rest : Bytes)
    → (lead ≡ b'T') ⊎ (lead ≡ b'S')
    → IsStray b
    → parse_stop_reply (lead ∷ b ∷ rest) ≡ panicked
unfolding parse_stop_reply parse_stop_text parse_signal slice is_char_boundary from_utf8_lossy
    lossy_from char_chunk
parse_stop_reply-panicked lead b rest e h = elim e [
  | inl f ↦
      rw (f, lossy_stray (length rest) b rest h, long_enough (lossy_from (length rest) rest)) refl
  | inr f ↦
      rw (f, lossy_stray (length rest) b rest h, long_enough (lossy_from (length rest) rest)) refl
]
