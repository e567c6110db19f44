-- ===== src/Offline.antt =====
-- src/patches/offline.rs: the patches tried on a copy of a file.
pub mod Known
pub mod Prepare
pub mod Validate
pub mod Frame
pub mod Copy
pub mod Prepared
pub mod Success
pub mod Tried
