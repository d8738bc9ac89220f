-- ===== src/Tests/Breakpoints.antt =====
-- A conditional breakpoint on an instruction of the vdso, and files that are refused.
use nnd.Base.{◌≡◌, refl, true, false, [], ◌∷◌, ◌++◌, some, arith, codes}
use nnd.ByteIo.{unexpected_eof, read_u8, read_bool}
use nnd.GdbRemote.Text.{is_utf8, char_chunk}
use nnd.Breakpoints.{
  loaded, failed, io, unexpected_breakpoint_type, unexpected_condition_flag, vdso, FunctionLocator,
  instruction, Breakpoint, save_state, load_state, load_on, on_of, load_condition, condition_of,
}
use nnd.Breakpoints.Locators.{IsFunction}
use nnd.Breakpoints.Saved.{
  within, of_instruction, conditional, IsSavable, reloaded, load_state-save_state,
}

abbrev clock : FunctionLocator
clock = record {
  binary_locator = record { path = codes "vdso"; inode = 77; special = vdso 4096 8192 };
  mangled_name = codes "_ZL5clockv";
  demangled_name = codes "clock";
  addr = 0x7fff0010;
}

abbrev stop : Breakpoint
stop = record {
  on = instruction (some (clock, 3)) 0x7fff0013 65535;
  condition = some (codes "x > 3");
  hits = 12;
  enabled = true;
  active = true;
  hidden = false;
  builtin = false;
}

clock_fits : IsFunction clock
unfolding is_utf8 char_chunk
clock_fits = record {
  path = record { utf8 = refl; short = omega arith };
  mangled = omega arith;
  demangled = record { utf8 = refl; short = omega arith };
  addr = omega arith;
}

stop_fits : IsSavable stop
unfolding is_utf8 char_chunk
stop_fits = record {
  on = of_instruction _ _ _ (within clock 3 clock_fits (omega arith)) (omega arith) (omega arith);
  condition = conditional (codes "x > 3") (record { utf8 = refl; short = omega arith });
}

unknown_type : load_state (7 ∷ 0 ∷ 1 ∷ []) ≡ failed unexpected_breakpoint_type
unfolding load_state load_on read_u8 on_of
unknown_type = refl

unknown_flag : load_state (2 ∷ 9 ∷ 1 ∷ []) ≡ failed unexpected_condition_flag
unfolding load_state load_on read_u8 on_of load_condition condition_of
unknown_flag = refl

cut_off : load_state (2 ∷ 0 ∷ []) ≡ failed (io unexpected_eof)
unfolding load_state load_on read_u8 on_of load_condition condition_of read_bool
cut_off = refl

load_state-save_state_example :
    load_state (save_state stop ++ 5 ∷ []) ≡ loaded (reloaded stop) (5 ∷ [])
load_state-save_state_example = load_state-save_state stop (5 ∷ []) stop_fits
