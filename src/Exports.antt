-- ===== src/Exports.antt =====
-- src/lib.rs: the exports of the DLL, and the initialization that they share.
pub mod Entry
pub mod Once
pub mod Process
