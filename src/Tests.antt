-- ===== src/Tests.antt =====
-- Runs of the model at concrete inputs, which the theorems apply to.
pub mod Samples
pub mod Devices
pub mod Wire
pub mod Expand
pub mod Update
pub mod Inputs
pub mod Resource
pub mod Read
pub mod Checks
