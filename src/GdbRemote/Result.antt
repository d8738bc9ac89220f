-- ===== src/GdbRemote/Result.antt =====
-- The results of src/gdb_remote.rs. Of the text of a message only its kind is kept.

pub data IoError : Type 0 where
  would_block timed_out other_io : IoError

pub data Reason : Type 0 where
  odd_length_hex bad_hex_digit bad_hex_number : Reason
  target_is_running connection_closed : Reason
  empty_qxfer_reply unexpected_qxfer_lead : Reason
  command_failed bad_thread_info error_reply : Reason
  reply_not_utf8 empty_mem_reply short_mem_read : Reason
  empty_stop_reply not_a_stop_reply short_stop_reply bad_signal : Reason

pub data GdbError : Type 0 where
  io : IoError → GdbError
  protocol : Reason → GdbError
  unsupported : GdbError

-- `panicked` is a panic of the code. `stuck` is no result of the code: a loop of the model ran out
-- of fuel.
pub data Result {ℓ} (A : Type ℓ) : Type ℓ where
  ok : A → Result A
  err : GdbError → Result A
  panicked stuck : Result A

infixl 5 ◌>>=◌
abbrev pub ◌>>=◌ {ℓ κ} : {A : Type ℓ} {B : Type κ} → Result A → (A → Result B) → Result B
ok a >>= f = f a
err e >>= f = err e
panicked >>= f = panicked
stuck >>= f = stuck
