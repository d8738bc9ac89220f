-- ===== src/Tests.antt =====
-- Runs of the models on small inputs, many of them the unit tests of the repository, and the
-- theorems at inputs that meet their hypotheses.
mod Breakpoints
mod ByteIo
mod Disassembly
mod GdbProto
mod GdbRemote
mod Interp
mod Layout
mod Pool
mod RangeIndex
mod Registers
mod Search
mod SliceReader
mod ValueBlob
