-- ===== src/Http.antt =====
-- The modules of src/http.
pub mod Body
pub mod Cookies
pub mod Form
pub mod Header
pub mod Url
