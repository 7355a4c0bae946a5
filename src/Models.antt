-- ===== src/Models.antt =====
-- The modules of src/models.
pub mod Account
pub mod Connection
pub mod Fixtures
pub mod Like
pub mod Memory
pub mod Post
pub mod Session
pub mod Sql
mod Tests
