-- ===== src/Github.antt =====
-- providers/github: the discovery of who has access to which repository of an organization.
pub mod Errors
pub mod Fields
pub mod Keys
pub mod Http
pub mod Links
pub mod Records
pub mod Client
pub mod Discovery
pub mod Config
pub mod Protocol
mod Tests
mod Scenario
