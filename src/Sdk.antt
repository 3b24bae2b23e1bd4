-- ===== src/Sdk.antt =====
-- The Go SDK (sdk/go): the in-memory client, its live updates and its delta handling.
pub mod Delta
pub mod Http
pub mod Client
pub mod Gate
pub mod Live
pub mod Stream
pub mod Sse
pub mod Eval
pub mod Evaluate
mod Tests
mod EvaluateTests
mod StreamTests
