-- ===== src/Runtime.antt =====
-- crates/native-runtime: one provider session over stdin and stdout.
pub mod Limits
pub mod Input
pub mod Domain
pub mod Wire
pub mod Sdk
pub mod Request
pub mod Output
pub mod Response
pub mod Session
mod Tests
