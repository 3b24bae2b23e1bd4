-- ===== src/Api.antt =====
-- Package internal/api: the handlers.
pub mod Login
pub mod Reads
pub mod Audit
pub mod Projects
pub mod Stream
pub mod Access
pub mod Values
pub mod Members
pub mod ApiKeys
mod MembersTests
mod ProjectsTests
mod LoginTests
pub mod RateLimit
pub mod ValuesSample
mod ValuesTests
mod ApiKeysTests
mod RateLimitTests
pub mod Aside
pub mod Requests
