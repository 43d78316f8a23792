-- ===== src/Store.antt =====
-- internal/store/sqlite: the records of the sandboxes and the records of the requests that created
-- them.
pub mod Lifecycle
pub mod Tokens
pub mod Creates
pub mod Calls
pub mod Listing
