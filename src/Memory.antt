-- ===== src/Memory.antt =====
-- src/patches/memory.rs: reads and writes of the process's memory that are checked against the
-- pages that Windows reports, with what the code relies on of Windows.
pub mod Bytes
pub mod Os
pub mod Walk
pub mod Checked
pub mod Reads
pub mod Writes
pub mod Again
pub mod Late
pub mod Display
pub mod Protect
pub mod Total
