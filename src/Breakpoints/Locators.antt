-- ===== src/Breakpoints/Locators.antt =====
-- What a saved breakpoint refers to, of src/symbols.rs and src/procfs.rs: the numbers, texts,
-- points of interest and functions that were saved are loaded again.
use nnd.Base.{
  ℕ, ◌^◌, ◌<◌, ◌≡◌, refl, ap, Bool, true, false, ◌++◌, Bytes, length, arith, append_assoc,
}
use nnd.ByteIo.{
  read_u8, read_u16, read_usize, read_bool, read_slice, read_str, write_u8, write_u16, write_usize,
  write_bool, write_slice, write_str,
}
use nnd.ByteIo.Slice.{read_slice-write_slice, read_number-to_le_bytes}
use nnd.ByteIo.Roundtrip.{read-write, read_str-write_str}
use nnd.GdbRemote.Text.{is_utf8}
use nnd.Breakpoints.{
  loaded, from_io, PointOfInterest, main_function, library_load, panic, exception, SpecialSegmentId,
  none, vdso, BinaryLocator, FunctionLocator, save_point_of_interest, load_point_of_interest,
  point_of_interest_of, is_vdso, special_of, bool_number, save_binary_locator, load_binary_locator,
  save_function_locator, load_function_locator,
}

-- A text of the standard library: UTF-8, and shorter than 2^64.
pub record IsText (s : Bytes) : Type 0 where
  pub utf8 : is_utf8 s ≡ true
  pub short : length s < 2 ^ 64

pub number_u8 :
    (x : ℕ) (rest : Bytes) → x < 256 → from_io (read_u8 (write_u8 x ++ rest)) ≡ loaded x rest
number_u8 x rest h =
    ap from_io (read-write x 0 0 0 false rest h (omega arith) (omega arith) (omega arith)).0

pub number_u16 :
    (x : ℕ) (rest : Bytes) → x < 2 ^ 16 → from_io (read_u16 (write_u16 x ++ rest)) ≡ loaded x rest
number_u16 x rest h =
    ap from_io (read-write 0 x 0 0 false rest (omega arith) h (omega arith) (omega arith)).1

pub number :
    (x : ℕ) (rest : Bytes)
    → x < 2 ^ 64
    → from_io (read_usize (write_usize x ++ rest)) ≡ loaded x rest
unfolding read_usize write_usize
number x rest h = ap from_io (read_number-to_le_bytes 8 x rest h)

pub flag : (b : Bool) (rest : Bytes) → from_io (read_bool (write_bool b ++ rest)) ≡ loaded b rest
flag b rest =
    ap from_io (read-write 0 0 0 0 b rest (omega arith) (omega arith) (omega arith) (omega arith)).4

-- A flag that was written as the number 0 or 1.
pub flag_u8 :
    (b : Bool) (rest : Bytes)
    → from_io (read_bool (write_u8 (bool_number b) ++ rest)) ≡ loaded b rest
unfolding write_u8 write_bool
flag_u8 true rest = flag true rest
flag_u8 false rest = flag false rest

pub bytes :
    (s rest : Bytes)
    → length s < 2 ^ 64
    → from_io (read_slice (write_slice s ++ rest)) ≡ loaded s rest
bytes s rest h = ap from_io (read_slice-write_slice s rest h)

pub text : (s rest : Bytes) → IsText s → from_io (read_str (write_str s ++ rest)) ≡ loaded s rest
text s rest h = ap from_io (rw h.utf8 at (read_str-write_str s rest h.short))

pub point :
    (p : PointOfInterest) (rest : Bytes)
    → load_point_of_interest (save_point_of_interest p ++ rest) ≡ loaded p rest
unfolding load_point_of_interest save_point_of_interest point_of_interest_of
point main_function rest = rw (number_u8 0 rest (omega arith)) refl
point library_load rest = rw (number_u8 1 rest (omega arith)) refl
point panic rest = rw (number_u8 2 rest (omega arith)) refl
point exception rest = rw (number_u8 3 rest (omega arith)) refl

-- What a locator is after a restart: without the inode and the addresses of the process.
abbrev pub forgotten : SpecialSegmentId → SpecialSegmentId
forgotten none = none
forgotten (vdso start end) = vdso 0 0

abbrev pub reloaded_binary : BinaryLocator → BinaryLocator
reloaded_binary b = record { path = b.path; inode = 0; special = forgotten b.special }

vdso_number : (s : SpecialSegmentId) → bool_number (is_vdso s) < 256
unfolding is_vdso
vdso_number none = omega arith
vdso_number (vdso start end) = omega arith

special : (s : SpecialSegmentId) → special_of (bool_number (is_vdso s)) ≡ forgotten s
unfolding special_of is_vdso
special none = refl
special (vdso start end) = refl

binary :
    (b : BinaryLocator) (rest : Bytes)
    → IsText b.path
    → load_binary_locator (save_binary_locator b ++ rest) ≡ loaded (reloaded_binary b) rest
unfolding load_binary_locator save_binary_locator
binary b rest h =
    let n = bool_number (is_vdso b.special) in
    rw
      (
        append_assoc (write_str b.path) (write_u8 n) rest,
        text b.path (write_u8 n ++ rest) h,
        number_u8 n rest (vdso_number b.special),
        special b.special,
      )
      refl

-- The parts of a saved function that a file can hold.
pub record IsFunction (f : FunctionLocator) : Type 0 where
  pub path : IsText f.binary_locator.path
  pub mangled : length f.mangled_name < 2 ^ 64
  pub demangled : IsText f.demangled_name
  pub addr : f.addr < 2 ^ 64

abbrev pub reloaded_locator : FunctionLocator → FunctionLocator
reloaded_locator f = record f { binary_locator = reloaded_binary f.binary_locator }

pub locator :
    (f : FunctionLocator) (rest : Bytes)
    → IsFunction f
    → load_function_locator (save_function_locator f ++ rest) ≡ loaded (reloaded_locator f) rest
unfolding load_function_locator save_function_locator
locator f rest h =
    let b = save_binary_locator f.binary_locator in
    let m = write_slice f.mangled_name in
    let d = write_str f.demangled_name in
    let a = write_usize f.addr in
    rw
      (
        append_assoc (b ++ m ++ d) a rest,
        append_assoc (b ++ m) d (a ++ rest),
        append_assoc b m (d ++ (a ++ rest)),
        binary f.binary_locator (m ++ (d ++ (a ++ rest))) h.path,
        bytes f.mangled_name (d ++ (a ++ rest)) h.mangled,
        text f.demangled_name (a ++ rest) h.demangled,
        number f.addr rest h.addr,
      )
      refl
