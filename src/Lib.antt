-- ===== src/Lib.antt =====
-- fc2-systemdetection: the runtime patcher of Dunia.dll.
--
-- The program is a 32-bit Windows DLL that stands in for a library of Far Cry 2. It describes the
-- hardware to the game (src/gear) and patches the game's Dunia.dll in memory (src/patches). It also
-- tries the patches on a file (src/patches/offline.rs). This library is about all of these.
--
--   Prelude/   Boolean tests, lists over the native numbers, results, and `usize` arithmetic
--   Text       the functions on texts of Rust's standard library that the sources call; Text/Format
--              is `format!`, and Text/Words joins and splits words
--   Memory/    src/patches/memory.rs
--     Bytes    an address space as a function from addresses to bytes, with `peek` and `poke`
--     Os       `VirtualQuery`, `VirtualProtect`, `FlushInstructionCache` and the constants
--     Walk     the loop over the regions of a range
--     Checked  `read_bytes`, `validate_bytes`, `write_checked` and their helpers
--     Protect  what Windows documents of `VirtualProtect`, and its refusals
--     Display  the texts of the errors;  Reads, Writes, Again, Late, Total   results
--   Scan/      src/patches/sigscan.rs
--     Pattern  `Pattern`;  Sections  `validate_pe_sections`;  Range  `validate_readable_range` and
--     `ValidatedModuleReader::read_at`;  Image  `ModuleImage` and its searches;  FileImage
--     `ModuleImage::from_pe_file`
--     Display  the texts of the errors
--     Find, Layout, Agree, Shown, Snapshot, Search, Complete, Rebase, Blank, Raw, Mapped, Offline
--     their results
--   Config/    src/patches/config.rs
--     Options  `PatchConfig`, `parse` and `ConfigLoad::load`
--     Documents, Warnings   documents with their meaning, and the numbers of the warnings
--   Patches/   src/patches/mod.rs
--     Plan     `PatchPlan` and `CheckedWrite`;  Target  `find_signature_target` and
--     `checked_known_signature_write`;  Build  `DuniaBuild` and `module_path`;  Recipes  the five
--     planners;  Run  `prepare_patch`, `PatchReport` and `run`
--     Display  the texts of errors, builds and reports;  Initialize  `initialize`,
--     `load_patch_config` and `emit_report`
--     Rollback, Apply, Leaves, Failure, Frame, Ready, Total   what a plan does to memory
--     Resolve, Alike, Rebase, Known, Contained, Containment, Reports, Disabled, Configured, Path
--     their results
--   Offline/   src/patches/offline.rs
--     Known    its values and `validate_known_rvas`;  Prepare  `make_plans`, `no_blink_diagnostics`
--     and the first loop;  Validate  the other loops and `validate_dunia_file`
--     Frame, Copy, Prepared, Success, Tried   their results
--   Gear/      src/gear
--     Cpu      `GearCPU::new`;  Topology  its counts;  Score  `GearScore`;  Graphics  `GearGraphics`
--     Heap     the objects of `Box`;  Hardware  `GearHardware` and the destructors
--     Scored, Owned, Lifetime, Released   their results
--   Exports/   src/lib.rs
--     Entry    the statics and the exports;  Once  what repeated calls keep;  Process  the exports
--     with `initialize` behind them
--   Tests/     runs, and the theorems at concrete inputs
--
-- How the parts interact: `run` takes the snapshot of Dunia.dll that `ModuleImage::from_module` makes,
-- lets each planner search it and validate the bytes in memory, and then applies the plans one by one
-- with `write_checked`. An operation that may change memory takes a `Machine` (the bytes, and what
-- Windows keeps of the pages) and returns its result beside the machine that it leaves. Errors are
-- values of data types with the source's constructors; where the source formats a text into an error,
-- a constructor names the text and carries what is formatted into it, and the functions `display_..`
-- give the text. `initialize` joins the configuration, `run` and the report.
--
-- `validate_dunia_file` maps a file into the heap as the loader would, makes all plans on this copy,
-- checks their RVAs for a known build, applies them to the copy, and then makes and applies the plans
-- once more; the copy is part of the same `Machine`. A hardware object is an entry of a `Heap` of
-- objects; its methods take the heap and the object's address.
--
-- Numbers: `usize` has 32 bits, the width of the target i686-pc-windows-msvc, and `checked_add` and
-- `checked_sub` are written out at that width. A byte is a number; the readers give what memory holds.
-- An `i32`, a `u32` or an `f32` of src/gear is given by its 32 bits.
--
-- Parameters: the functions and constants of Windows are the fields of the interface `Os`, the parser
-- of the crate Portex the record `Portex`, and the questions about the loaded module the record
-- `Modules`; what src/gear asks of Windows is `CpuOs` and `GraphicsOs`, the allocator behind `Box` is
-- `Allocator`, and what lib.rs calls is `Services`. The laws `QueryLaws` and `ProtectLaws` are what
-- Windows documents of `VirtualQuery` and `VirtualProtect`, and `AllocatorLaws` what Rust documents of
-- `Box::into_raw`. That a call of Windows succeeds is not assumed: the theorems on writes and plans
-- that succeed name a refusal (`Refuses`) as the other outcome.
--
-- Fuel: the loop over regions has the length of the range as its fuel, since each round moves the
-- cursor up; the loop of `module_path` has eight rounds, in which the capacity grows
-- from 260 to 32768; the loop over processors has 32, one for each bit of the mask; the digits of a
-- number have 20 or 16, enough for a `u64`.
--
-- Not modelled: memory is changed by the patcher alone, and other threads of the game are left out. So
-- are the tables of methods that the game calls the objects of src/gear through, and the console.
-- `{:?}` of a text, the functions on paths and the file system are parameters.
pub mod Prelude
pub mod Memory
pub mod Text
pub mod Scan
pub mod Config
pub mod Patches
pub mod Offline
pub mod Gear
pub mod Exports
mod Tests
