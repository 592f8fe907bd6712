-- ===== src/Api.antt =====
-- crates/eiger-api/src/lib.rs: the parts of the HTTP API that are modelled.
pub mod Auth
pub mod Requests
pub mod Responses
pub mod Overrides
pub mod WaitUntil
pub mod ScreenshotFormat
pub mod Options
pub mod Links
pub mod Cdp
pub mod Pages
pub mod Rest
pub mod Handlers
pub mod Proxy
