-- ===== src/Utility.antt =====
-- src/utility.c: the search for a text in a text, and what is done to the body of a post.
pub mod Digest
pub mod Escape
pub mod Random
pub mod Search
