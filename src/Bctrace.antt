-- ===== src/Bctrace.antt =====
-- src/bctrace.rs: the decoder of the bytecode trace records. The children follow the file's parts.
pub mod Read
pub mod Ops
pub mod Cursor
pub mod Blocks
pub mod Meta
pub mod FuncDef
pub mod Walk
pub mod Glue
mod Tests
