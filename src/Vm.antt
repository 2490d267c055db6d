-- ===== src/Vm.antt =====
-- The QEMU VM resource: internal/provider/resource_qemu_vm.go and the files qemu_vm_*.go beside it.
pub mod Allocation
pub mod Cdrom
pub mod Identity
pub mod Import
pub mod Validate
pub mod Request
pub mod Slots
pub mod Model
pub mod ConfigRequest
pub mod SeedUpdate
pub mod World
pub mod Planned
pub mod Resize
pub mod Update
pub mod Read
pub mod Delete
