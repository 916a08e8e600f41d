-- ===== src/Cloudflare.antt =====
-- providers/cloudflare: the assignments of access in an account.
pub mod Values
pub mod Errors
pub mod Client
pub mod Fields
pub mod Unique
pub mod Policies
pub mod Collection
pub mod Protocol
pub mod Provider
mod Tests
