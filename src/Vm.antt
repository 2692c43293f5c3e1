-- ===== src/Vm.antt =====
-- source/vm: the instruction set, the chunks of bytecode and their constant pools.
pub mod Opcodes
pub mod Chunk
pub mod Pool
pub mod Machine
