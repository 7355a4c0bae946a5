-- ===== src/Handler.antt =====
-- The handlers of src/handler.
pub mod Account
pub mod Actions
pub mod Markup
pub mod Pages
pub mod Signup
pub mod Static
pub mod Views
mod Tests
