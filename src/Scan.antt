-- ===== src/Scan.antt =====
-- src/patches/sigscan.rs: the parsed sections of a loaded module, and the search for signatures.
pub mod Error
pub mod Pattern
pub mod Find
pub mod Sections
pub mod Layout
pub mod Range
pub mod Image
pub mod Agree
pub mod Snapshot
pub mod Search
pub mod Complete
pub mod Display
pub mod Shown
pub mod Rebase
pub mod FileImage
pub mod Blank
pub mod Raw
pub mod Mapped
pub mod Offline
