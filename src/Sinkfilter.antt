-- ===== src/Sinkfilter.antt =====
-- src/sinkfilter.rs: what the sink filter reads, and how it joins and judges its chains.
pub mod Wasm
pub mod UnionFind
pub mod Names
mod Tests
