-- ===== src/Patches.antt =====
-- src/patches/mod.rs: resolving the patches, applying them, and reporting.
pub mod Error
pub mod Plan
pub mod Rollback
pub mod Apply
pub mod Leaves
pub mod Failure
pub mod Target
pub mod Resolve
pub mod Known
pub mod Build
pub mod Signatures
pub mod Recipes
pub mod Run
pub mod Frame
pub mod Contained
pub mod Containment
pub mod Reports
pub mod Alike
pub mod Rebase
pub mod Display
pub mod Initialize
pub mod Disabled
pub mod Configured
pub mod Path
pub mod Ready
pub mod Total
