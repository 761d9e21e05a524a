-- ===== src/Pipeline.antt =====
-- internal/pipeline: the steps on IPA archives before the device gets them and after.
pub mod Compare
pub mod Paths
pub mod Archive
pub mod Verify
pub mod Cleanup
pub mod Assemble
pub mod Version
pub mod Patch
pub mod Install
pub mod Info
