-- ===== src/Tests.antt =====
-- Runs of the definitions at concrete inputs.
pub mod Files
pub mod MachO
pub mod Verify
pub mod Archive
pub mod Install
pub mod Info
pub mod Config
pub mod Updater
pub mod Versions
pub mod Workflow
pub mod Device
pub mod Download
