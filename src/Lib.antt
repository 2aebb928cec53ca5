-- ===== src/Lib.antt =====
-- Verification of ClickDOOM's reference emulator: a small RV32IM machine in Rust that runs DOOM and
-- that the SQL engines of the repository are compared with.
--
-- Parts and files. A path names the code from the repository's root.
--
--   * Base, Base/Tests, Base/Lists, Base/Result, Base/Int: names of the libraries passed on, Boolean
--     tests, lists by native index, outcomes (`ok`, `err`, `panic`) and signed integers.
--   * Word: `u32` and `i32` arithmetic as bit patterns; Word/Bits and Word/Signed have the lemmas.
--   * Spec/Map: spec/src/map.rs, the memory map and `MemoryMap::classify`. Spec/Halt:
--     spec/src/halt.rs. Spec/Checkpoint: spec/src/checkpoint.rs, the cadence of a trace and what its
--     hashes cover.
--     Spec/Line: its trace lines, printed and parsed.
--   * Mmio: refemu/src/mmio.rs, the device window in both of its forms.
--   * Memory, Memory/Watch, Memory/Access: refemu/src/memory.rs. `Memory::read` and `Memory::write`
--     are `Memory.Access.read` and `write`; `read_le` and `write_le` are in Memory.
--   * Decode, Decode/Operation, Decode/Arms: refemu/src/decode.rs.
--   * Asm: refemu/src/asm.rs, the encoders.
--   * Predecode: refemu/src/predecode.rs, the decode cache.
--   * Exec, Exec/Halted, Exec/Sources, Exec/Execute, Exec/Step: refemu/src/exec.rs. `Cpu::load_image`,
--     `Cpu::set_text_region` and `Cpu::restore_memory` are `load_cpu_image`, `declare_text` and
--     `restore_memory`; `execute_op` is the match of `Cpu::execute` and
--     `sources` the registers that its arms read. Exec/Fetches, Exec/Precise and Exec/Runs are about
--     fetches, halts and steps, Exec/Cacheless and Exec/Uncached about runs without the decode cache.
--   * Trace: refemu/src/trace.rs, the loop that takes checkpoints.
--     Trace/Observers: the observers made of others.
--   * Wad: native/src/wad, the reader of a WAD's directory, its names and markers.
--   * Image, Image/Elf: refemu/src/image.rs, program images and the ELF reader, and `Cpu::load` of
--     refemu/src/exec.rs. Image/Laws, Image/Sorted, Image/Parsed, Image/Named, Image/Containing,
--     Image/Text and Image/Loading are about its reads, sorts, results, symbols, function lookup,
--     text region and loading.
--   * Csource, Csource/Chars, Csource/Lex, Csource/Table, Csource/Expr, Csource/Symbols, Csource/Init:
--     native/src/csource, the reader of the engine's C tables: lexer, expressions, symbols and
--     initializers; Csource/Init/Structs has the struct shapes. `Symbols` is in
--     Csource/Table, since both expressions and symbols use it; `define_name` is `Symbols::define`.
--     Csource/Expr/Grammar is the grammar beside the parser.
--     Csource/Symbols/Enums writes enumerations out for `absorb_enum` to read.
--   * RowBinary: native/src/resident/rowbinary.rs, rows of the resident statements.
--   * WordAddr: executor/src/word.rs, word addresses and indices.
--   * Examples: a small machine, a small WAD, a small C source and a small ELF file, and what the
--     theorems say of them.
--
-- How they interact. `Cpu` owns a `Memory`, which owns the device window; a step fetches through
-- the cache or the memory, decodes, executes and retires. Both `read` and `write` take the memory
-- and give it back, since a read of the key register pops the queue. The trace loop drives the
-- machine and hands an observer what happened. The WAD reader and the reader of C tables stand
-- alone: the loaders of the native engine call them. In the latter `lex` feeds `absorb` and
-- `find_array`; `resolve` lexes and evaluates what `absorb` collected, and the initializers are
-- evaluated in the table that results. `Cpu::load` takes what `parse_elf` gives.
--
-- Numbers. A `u32`, and an `i32` by its bit pattern, is a native number below 2 ^ 32 with the
-- wrap-around written out. The retired-instruction count and the checkpoint arithmetic are `u64`
-- sums that panic past 2 ^ 64. A register file is a list of 32 numbers, and an array of bytes a list
-- of numbers below 256. An `i64` of the C reader is its bit pattern below 2 ^ 64,
-- and a text is the list of its code points.
--
-- Panics. An index out of bounds, a division by 0, a failed debug assertion, `unreachable!` and a
-- checked addition past the end of its type are the outcome `panic`, or `none` in a helper. Not
-- checked are the sums that cannot come near the end of theirs: the store counts of the write watch
-- and `retired_icount`, which follow the retired-instruction count, offsets in `usize` and the depth
-- of brackets. The line number of the lexer wraps, as in a release build, which only a text of
-- 2 ^ 32 lines would show.
--
-- Bounds. The loops of the C reader take fuel, one more than the characters or tokens left, and
-- `eval` seven for each token and seven more; running out is an outcome of its own, `no_fuel`.
-- LEB128 takes ten rounds. `run_until_halt` is bounded in the source. The loop of `trace::run`
-- takes fuel; the rest of the budget is enough, since every step that retires adds one to the
-- count.
--
-- Parameters. The hash function of the xxhash package is a record of functions, and what
-- `from_utf8_lossy` makes of a symbol's name a function; of neither is anything assumed.
--
-- Not modelled: `Instruction::render`, serde, the SHA-256
-- check of a WAD, snapshots, probes and the command line of refemu; the SQL generators, the
-- loaders and the driver, which build text or move data; the vendored engine that the machine
-- runs.
pub mod Base
pub mod Word
pub mod Spec
pub mod Mmio
pub mod Memory
pub mod Decode
pub mod Asm
pub mod Predecode
pub mod Exec
pub mod Trace
pub mod Image
pub mod Csource
pub mod RowBinary
pub mod WordAddr
pub mod Examples
pub mod Wad
