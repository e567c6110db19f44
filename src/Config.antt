-- ===== src/Config.antt =====
-- src/patches/config.rs: the switches of the patches, and the file that sets them.
pub mod Options
pub mod Documents
pub mod Warnings
