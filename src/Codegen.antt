-- ===== src/Codegen.antt =====
-- Package internal/codegen: a schema definition as Go or TypeScript source.
pub mod Names
pub mod Types
pub mod Emit
mod Tests
