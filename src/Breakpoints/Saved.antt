-- ===== src/Breakpoints/Saved.antt =====
-- Breakpoints that src/debugger.rs saves are loaded again.
use nnd.Base.{
  ℕ, ◌^◌, ◌<◌, ◌≡◌, refl, Bool, true, false, ◌++◌, Option, some, Bytes, length, arith, append_assoc,
}
use nnd.ByteIo.{write_u8, write_u16, write_usize, write_bool, write_slice, write_str}
use nnd.Breakpoints.{
  loaded, PointOfInterest, FunctionLocator, BreakpointOn, line, instruction, initial_exec,
  point_of_interest, data_access, Breakpoint, save_point_of_interest, save_function_locator,
  save_function, load_function, save_on, on_of, save_condition, condition_of, save_state,
  load_state, load_on, load_condition,
}
use nnd.Breakpoints.Locators.{
  IsText, IsFunction, number_u8, number_u16, number, flag, flag_u8, bytes, text, point, locator,
  reloaded_locator,
}

-- The function of an instruction breakpoint, and the rest of what a breakpoint is on.
pub data HoldsFunction : Option (FunctionLocator × ℕ) → Type 0 where
  without : HoldsFunction Option.none
  within :
      (f : FunctionLocator) (off : ℕ) → IsFunction f → off < 2 ^ 64 → HoldsFunction (some (f, off))

abbrev pub reloaded_function : Option (FunctionLocator × ℕ) → Option (FunctionLocator × ℕ)
reloaded_function Option.none = Option.none
reloaded_function (some (f, off)) = some (reloaded_locator f, off)

function :
    (o : Option (FunctionLocator × ℕ)) (rest : Bytes)
    → HoldsFunction o
    → load_function (save_function o ++ rest) ≡ loaded (reloaded_function o) rest
unfolding load_function save_function
function _ rest without = rw (flag_u8 false rest) refl
function _ rest (within f off h l) =
    let s = save_function_locator f in
    let w = write_usize off in
    rw
      (
        append_assoc (write_u8 1 ++ s) w rest,
        append_assoc (write_u8 1) s (w ++ rest),
        flag_u8 true (s ++ (w ++ rest)),
        locator f (w ++ rest) h,
        number off rest l,
      )
      refl

-- What a saved file can hold of a breakpoint: numbers of their widths, and texts.
pub data HoldsOn : BreakpointOn → Type 0 where
  of_line :
      (path : Bytes) (n : ℕ) (adjusted : Option ℕ)
      → length path < 2 ^ 64
      → n < 2 ^ 64
      → HoldsOn (line path n adjusted)
  of_instruction :
      (o : Option (FunctionLocator × ℕ)) (addr level : ℕ)
      → HoldsFunction o
      → addr < 2 ^ 64
      → level < 2 ^ 16
      → HoldsOn (instruction o addr level)
  of_exec : HoldsOn initial_exec
  of_point : (p : PointOfInterest) → HoldsOn (point_of_interest p)
  of_data :
      (addr size : ℕ) (stop : Bool)
      → addr < 2 ^ 64
      → size < 256
      → HoldsOn (data_access addr size stop)

-- What a breakpoint is on once it was loaded.
abbrev pub reloaded_on : BreakpointOn → BreakpointOn
reloaded_on (line path n adjusted) = line path n Option.none
reloaded_on (instruction o addr level) = instruction (reloaded_function o) addr level
reloaded_on initial_exec = initial_exec
reloaded_on (point_of_interest p) = point_of_interest p
reloaded_on (data_access addr size stop) = data_access addr size stop

on_saved :
    (o : BreakpointOn) (rest : Bytes)
    → HoldsOn o
    → load_on (save_on o ++ rest) ≡ loaded (reloaded_on o) rest
unfolding save_on on_of load_on
on_saved _ rest (of_line path n adjusted h l) =
    let p = write_slice path in
    let w = write_usize n in
    rw
      (
        append_assoc (write_u8 0 ++ p) w rest,
        append_assoc (write_u8 0) p (w ++ rest),
        number_u8 0 (p ++ (w ++ rest)) (omega arith),
        bytes path (w ++ rest) h,
        number n rest l,
      )
      refl
on_saved _ rest (of_instruction o addr level h l m) =
    let f = save_function o in
    let w = write_usize addr in
    let v = write_u16 level in
    rw
      (
        append_assoc (write_u8 1 ++ f ++ w) v rest,
        append_assoc (write_u8 1 ++ f) w (v ++ rest),
        append_assoc (write_u8 1) f (w ++ (v ++ rest)),
        number_u8 1 (f ++ (w ++ (v ++ rest))) (omega arith),
        function o (w ++ (v ++ rest)) h,
        number addr (v ++ rest) l,
        number_u16 level rest m,
      )
      refl
on_saved _ rest of_exec = rw (number_u8 2 rest (omega arith)) refl
on_saved _ rest (of_point p) =
    rw
      (
        append_assoc (write_u8 3) (save_point_of_interest p) rest,
        number_u8 3 (save_point_of_interest p ++ rest) (omega arith),
        point p rest,
      )
      refl
on_saved _ rest (of_data addr size stop h l) =
    let w = write_usize addr in
    let v = write_u8 size in
    let b = write_bool stop in
    rw
      (
        append_assoc (write_u8 4 ++ w ++ v) b rest,
        append_assoc (write_u8 4 ++ w) v (b ++ rest),
        append_assoc (write_u8 4) w (v ++ (b ++ rest)),
        number_u8 4 (w ++ (v ++ (b ++ rest))) (omega arith),
        number addr (v ++ (b ++ rest)) h,
        number_u8 size (b ++ rest) l,
        flag stop rest,
      )
      refl

pub data HoldsCondition : Option Bytes → Type 0 where
  unconditional : HoldsCondition Option.none
  conditional : (s : Bytes) → IsText s → HoldsCondition (some s)

condition_saved :
    (c : Option Bytes) (rest : Bytes)
    → HoldsCondition c
    → load_condition (save_condition c ++ rest) ≡ loaded c rest
unfolding load_condition save_condition condition_of
condition_saved _ rest unconditional = rw (number_u8 0 rest (omega arith)) refl
condition_saved _ rest (conditional s h) =
    rw
      (
        append_assoc (write_u8 1) (write_str s) rest,
        number_u8 1 (write_str s ++ rest) (omega arith),
        text s rest h,
      )
      refl

-- A breakpoint that a saved file can hold.
pub record IsSavable (b : Breakpoint) : Type 0 where
  pub on : HoldsOn b.on
  pub condition : HoldsCondition b.condition

-- A breakpoint after a restart: not active, never hit, and neither hidden nor builtin.
abbrev pub reloaded : Breakpoint → Breakpoint
reloaded b = record {
  on = reloaded_on b.on;
  condition = b.condition;
  hits = 0;
  enabled = b.enabled;
  active = false;
  hidden = false;
  builtin = false;
}

-- A breakpoint whose numbers fit their widths and whose texts are UTF-8 and shorter than 2^64 is
-- loaded as it was saved, and what stands behind it is left. What does not outlive the process is
-- reset: the counters and marks, the adjusted line, the inode and the addresses of the vdso.
pub load_state-save_state :
    (b : Breakpoint) (rest : Bytes)
    → IsSavable b
    → load_state (save_state b ++ rest) ≡ loaded (reloaded b) rest
unfolding load_state save_state
load_state-save_state b rest h =
    let o = save_on b.on in
    let c = save_condition b.condition in
    let e = write_bool b.enabled in
    rw
      (
        append_assoc (o ++ c) e rest,
        append_assoc o c (e ++ rest),
        on_saved b.on (c ++ (e ++ rest)) h.on,
        condition_saved b.condition (e ++ rest) h.condition,
        flag b.enabled rest,
      )
      refl
