-- ===== src/Tests.antt =====
-- The theorems at concrete inputs, and runs of the definitions.
mod Fixture
mod MemoryRuns
mod ScanRuns
mod FileRuns
mod ReportRuns
mod OfflineRuns
mod PatchRuns
mod ConfigRuns
mod GearRuns
mod ExportRuns
