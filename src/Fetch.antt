-- ===== src/Fetch.antt =====
-- The guarded fetch of a business's own website: backend/app/core/safe_fetch.py, and what it needs of
-- backend/app/core/fetch_backends.py.
pub mod Address
pub mod Body
pub mod Url
pub mod Fetcher
mod Tests
