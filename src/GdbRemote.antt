-- ===== src/GdbRemote.antt =====
-- src/gdb_remote.rs: the client of the GDB remote serial protocol. The children hold its parts:
-- hexadecimal text, the text functions of the standard library that it uses, the stop replies, the
-- connection, the commands, and the theorems about them.
pub mod Result
pub mod Hex
pub mod HexLaws
pub mod Text
pub mod StopReply
pub mod Yields
pub mod StopText
pub mod Connection
pub mod Waiting
pub mod Commands
pub mod Ready
pub mod Exchange
pub mod Arrival
pub mod Ascii
pub mod ReadMem
pub mod Resume
pub mod Clean
pub mod StopFront
pub mod WaitStop
pub mod Loops
