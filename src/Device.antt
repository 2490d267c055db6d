-- ===== src/Device.antt =====
-- Guest devices as property strings: internal/provider/qemu_vm_mapping.go and qemu_vm_devices.go.
pub mod Volume
pub mod Disk
pub mod EfiDisk
pub mod TpmState
pub mod Vga
pub mod Usb
pub mod Rng
pub mod Virtiofs
pub mod HostPci
pub mod IpConfig
pub mod Network
pub mod Pattern
pub mod Check
pub mod Expand
