-- ===== src/Breakpoints.antt =====
-- Breakpoints of src/debugger.rs as they are saved and loaded, with the functions of src/symbols.rs
-- and src/procfs.rs that save what they refer to. Of a condition the text is kept: its expression
-- is what `parse_watch_expression` makes of that text. Texts and paths are their bytes.
pub mod Locators
pub mod Saved
use nnd.Base.{
  ℕ, zero, suc, Bool, true, false, ◌==◌, if◌then◌else◌, List, [], ◌∷◌, ◌++◌, Option, some, Bytes,
}
use nnd.ByteIo.{
  ReadError, ReadResult, read_u8, read_u16, read_usize, read_bool, read_slice, read_str, write_u8,
  write_u16, write_usize, write_bool, write_slice, write_str,
}

-- How a load ends that is refused: an error of the reader, or a number in the file that stands for
-- nothing.
pub data LoadError : Type 0 where
  io : ReadError → LoadError
  unexpected_breakpoint_type unexpected_condition_flag unexpected_point_of_interest : LoadError

pub data Loaded (A : Type 0) : Type 0 where
  loaded : A → Bytes → Loaded A
  failed : LoadError → Loaded A

abbrev pub from_io : {A : Type 0} → ReadResult A → Loaded A
from_io (ReadResult.ok a rest) = loaded a rest
from_io (ReadResult.err e) = failed (io e)

infixl 5 ◌>>=◌
abbrev pub ◌>>=◌ : {A B : Type 0} → Loaded A → (A → Bytes → Loaded B) → Loaded B
loaded a rest >>= f = f a rest
failed e >>= f = failed e

pub data PointOfInterest : Type 0 where
  main_function library_load panic exception : PointOfInterest

pub data SpecialSegmentId : Type 0 where
  none : SpecialSegmentId
  vdso : (start end : ℕ) → SpecialSegmentId

pub record BinaryLocator : Type 0 where
  pub path : Bytes
  pub inode : ℕ
  pub special : SpecialSegmentId

pub record FunctionLocator : Type 0 where
  pub binary_locator : BinaryLocator
  pub mangled_name : Bytes
  pub demangled_name : Bytes
  pub addr : ℕ

pub data BreakpointOn : Type 0 where
  line : (path : Bytes) (line : ℕ) (adjusted_line : Option ℕ) → BreakpointOn
  instruction :
      (function : Option (FunctionLocator × ℕ)) (addr subfunction_level : ℕ) → BreakpointOn
  initial_exec : BreakpointOn
  point_of_interest : PointOfInterest → BreakpointOn
  data_access : (addr size : ℕ) (stop_on_read : Bool) → BreakpointOn

pub record Breakpoint : Type 0 where
  pub on : BreakpointOn
  pub condition : Option Bytes
  pub hits : ℕ
  pub enabled : Bool
  pub active : Bool
  pub hidden : Bool
  pub builtin : Bool

unfoldable pub save_point_of_interest : PointOfInterest → Bytes
save_point_of_interest main_function = write_u8 0
save_point_of_interest library_load = write_u8 1
save_point_of_interest panic = write_u8 2
save_point_of_interest exception = write_u8 3

unfoldable pub point_of_interest_of : ℕ → Bytes → Loaded PointOfInterest
point_of_interest_of zero rest = loaded main_function rest
point_of_interest_of (suc zero) rest = loaded library_load rest
point_of_interest_of (suc (suc zero)) rest = loaded panic rest
point_of_interest_of (suc (suc (suc zero))) rest = loaded exception rest
point_of_interest_of _ rest = failed unexpected_point_of_interest

unfoldable pub load_point_of_interest : Bytes → Loaded PointOfInterest
load_point_of_interest inp = from_io (read_u8 inp) >>= point_of_interest_of

unfoldable pub is_vdso : SpecialSegmentId → Bool
is_vdso none = false
is_vdso (vdso start end) = true

abbrev pub bool_number : Bool → ℕ
bool_number false = 0
bool_number true = 1

unfoldable pub special_of : ℕ → SpecialSegmentId
special_of n = if n == 1 then vdso 0 0 else none

unfoldable pub save_binary_locator : BinaryLocator → Bytes
save_binary_locator b = write_str b.path ++ write_u8 (bool_number (is_vdso b.special))

unfoldable pub load_binary_locator : Bytes → Loaded BinaryLocator
load_binary_locator inp = from_io (read_str inp) >>= λ path rest.
    from_io (read_u8 rest) >>= λ special rest.
    loaded (record { path = path; inode = 0; special = special_of special }) rest

unfoldable pub save_function_locator : FunctionLocator → Bytes
save_function_locator f =
    save_binary_locator f.binary_locator
    ++ write_slice f.mangled_name
    ++ write_str f.demangled_name
    ++ write_usize f.addr

unfoldable pub load_function_locator : Bytes → Loaded FunctionLocator
load_function_locator inp = load_binary_locator inp >>= λ binary_locator rest.
    from_io (read_slice rest) >>= λ mangled_name rest.
    from_io (read_str rest) >>= λ demangled_name rest. from_io (read_usize rest) >>= λ addr rest.
    loaded
      (record {
        binary_locator = binary_locator;
        mangled_name = mangled_name;
        demangled_name = demangled_name;
        addr = addr;
      })
      rest

-- The function of an instruction breakpoint, with the offset in it.
unfoldable pub save_function : Option (FunctionLocator × ℕ) → Bytes
save_function Option.none = write_u8 0
save_function (some (f, off)) = write_u8 1 ++ save_function_locator f ++ write_usize off

unfoldable pub load_function : Bytes → Loaded (Option (FunctionLocator × ℕ))
load_function inp = from_io (read_bool inp) >>= λ is_some rest.
    (if is_some
      then (load_function_locator rest >>= λ f rest.
          from_io (read_usize rest) >>= λ off rest. loaded (some (f, off)) rest)
      else loaded Option.none rest)

unfoldable pub save_on : BreakpointOn → Bytes
save_on (line path number adjusted_line) = write_u8 0 ++ write_slice path ++ write_usize number
save_on (instruction function addr subfunction_level) =
    write_u8 1 ++ save_function function ++ write_usize addr ++ write_u16 subfunction_level
save_on initial_exec = write_u8 2
save_on (point_of_interest point) = write_u8 3 ++ save_point_of_interest point
save_on (data_access addr size stop_on_read) =
    write_u8 4 ++ write_usize addr ++ write_u8 size ++ write_bool stop_on_read

-- What follows the number of the type.
unfoldable pub on_of : ℕ → Bytes → Loaded BreakpointOn
on_of zero rest = from_io (read_slice rest) >>= λ path rest.
    from_io (read_usize rest) >>= λ number rest. loaded (line path number Option.none) rest
on_of (suc zero) rest = load_function rest >>= λ function rest.
    from_io (read_usize rest) >>= λ addr rest.
    from_io (read_u16 rest) >>= λ level rest. loaded (instruction function addr level) rest
on_of (suc (suc zero)) rest = loaded initial_exec rest
on_of (suc (suc (suc zero))) rest =
    load_point_of_interest rest >>= λ point rest. loaded (point_of_interest point) rest
on_of (suc (suc (suc (suc zero)))) rest = from_io (read_usize rest) >>= λ addr rest.
    from_io (read_u8 rest) >>= λ size rest.
    from_io (read_bool rest) >>= λ stop rest. loaded (data_access addr size stop) rest
on_of _ rest = failed unexpected_breakpoint_type

unfoldable pub load_on : Bytes → Loaded BreakpointOn
load_on inp = from_io (read_u8 inp) >>= on_of

unfoldable pub save_condition : Option Bytes → Bytes
save_condition (some s) = write_u8 1 ++ write_str s
save_condition Option.none = write_u8 0

unfoldable pub condition_of : ℕ → Bytes → Loaded (Option Bytes)
condition_of zero rest = loaded Option.none rest
condition_of (suc zero) rest = from_io (read_str rest) >>= λ s rest. loaded (some s) rest
condition_of _ rest = failed unexpected_condition_flag

unfoldable pub load_condition : Bytes → Loaded (Option Bytes)
load_condition inp = from_io (read_u8 inp) >>= condition_of

unfoldable pub save_state : Breakpoint → Bytes
save_state b = save_on b.on ++ save_condition b.condition ++ write_bool b.enabled

unfoldable pub load_state : Bytes → Loaded Breakpoint
load_state inp = load_on inp >>= λ on rest. load_condition rest >>= λ condition rest.
    from_io (read_bool rest) >>= λ enabled rest.
    loaded
      (record {
        on = on;
        condition = condition;
        hits = 0;
        enabled = enabled;
        active = false;
        hidden = false;
        builtin = false;
      })
      rest
