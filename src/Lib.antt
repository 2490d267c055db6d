-- ===== src/Lib.antt =====
-- The Terraform provider for Proxmox VE: the QEMU virtual machine resource and what it stands on.
--
-- A configuration is a record of framework values, each null, unknown or known. The resource turns it
-- into a request whose compound entries are Proxmox property strings (`local:vm-1,size=8G,ssd=1`), sends
-- it through the API client, awaits the task that the API starts, and reads the guest back into the
-- state by parsing property strings. Deletion first settles a task left by an earlier run, then makes
-- sure that the guest at the tracked VMID is its own.
--
-- Files, with the code they model (all of it in internal/provider/):
--   Prelude, Int, Text, Value: shared names, int64, Go strings and the functions of strings, strconv and
--     sort that are called, the framework's values. A string is the list of its code points.
--   Client/Error, Client/Task: client.go (errNotFound, APIError, the chain that errors.Is and errors.As
--     walk) and client_task.go (taskOwnerNode, validateQemuTaskAck, nodeTaskFinished, waitForNodeTask).
--   Config: the splitting and appending helpers of qemu_vm_mapping.go.
--   Device/*: parseQemuVM... and encodeQemuVM... of qemu_vm_mapping.go and qemu_vm_devices.go, a file for
--     each kind of slot; the models are the structs of qemu_vm_schema.go and qemu_vm_devices.go.
--   Device/Pattern, Device/Check, Device/Expand: the regular expressions, validators and expansions of
--     qemu_vm_devices.go. A diagnostic (Diagnostic) is its attribute and its summary.
--   Vm/Identity, Vm/World, Vm/Delete: qemu_vm_identity.go and QemuVMResource.Delete with
--     awaitQemuVMPendingTask and reconcileQemuVMPendingTask (resource_qemu_vm.go), GetQemuVMConfig,
--     StopQemuVM and DeleteQemuVM (client_qemu.go). The state is a log of requests with replies, the clock, and the
--     private state. Vm/Delete/Monitor reads such a log.
--   Vm/Allocation: allocateVMID and submitQemuVMWithRetry (resource_qemu_vm.go).
--   Vm/Request: qemuVMConfigRequest, UpdateQemuVMRequest.IsEmpty and encodeQemuVMFields (client_qemu.go).
--     The form is a function from keys, as each key is set to one value.
--   Vm/Slots: qemuVMNarrowDeviceSlots, qemuVMDeletedDeviceSlots (resource_qemu_vm.go),
--     qemuVMNetworkStateValue, qemuVMDiskStateValue, projectQemuVMDiskState (qemu_vm_mapping.go) and
--     qemuVMDeviceStateValue (qemu_vm_devices.go). A Go map is an association list with distinct keys.
--   Vm/Cdrom: the keys of slots, the raw disk values and validateQemuVMCDROMOwnership.
--   Vm/Model, Vm/ConfigRequest: qemuVMModel and its parts (qemu_vm_schema.go) and
--     qemuVMConfigRequestFromModel (qemu_vm_mapping.go).
--   Vm/SeedUpdate: qemu_vm_seed_update.go. Vm/Planned: the planned CD-ROMs and the checks of a marked
--     slot (resource_qemu_vm.go), with ensureISOStorage (resource_nocloud_iso.go), isoVolumeExists
--     (client_storage_content.go) and splitProxmoxList (client.go).
--   Vm/Resize: resizeDisks, ResizeQemuDisk and qemuDiskSizeBytes (qemu_vm_resize.go).
--   Vm/Update: QemuVMResource.Update (resource_qemu_vm.go) as stages: the checks, the power, the
--     request, the seed's guard, the PUT with the rename, the seed's confirmation, the growing of disks,
--     the start and the refresh (Vm/Update/Apply has those from the guard on). Vm/Update/Monitor reads its
--     log.
--   Vm/Read: QemuVMResource.Read and readQemuVMState (resource_qemu_vm.go).
--   Vm/Import, Vm/Validate: qemuVMID, parseQemuVMImportID, validateQemuVMPowerConfig,
--     validateQemuVMIDAllocation, validateQemuVMCloneConfig, validateQemuVMRawConflicts with
--     qemuVMTypedConfigKeys (qemu_vm_mapping.go) and validateQemuVMDiskResize (qemu_vm_resize.go).
--   Tests: concrete runs.
--
-- Parameters: the server (its replies to polls, reads and posts, which may depend on all that was asked
-- before), the answers of /cluster/nextid, and float64 with the laws of strconv (the text that is written
-- reads back, and has no comma and no space at its ends); Tests/Samples gives a float64 by whole numbers.
-- The arithmetic on disk sizes in float64 is a parameter too (Vm/Resize/Size), without laws.
--
-- Bounds: waitForNodeTask runs on fuel 601. Its deadline is at most 600 seconds away and a round sleeps 2
-- seconds, so a wait takes fewer rounds. The walk over VMIDs counts the candidates that are left up to
-- 999999999, and the retries of a submission count down from 5. format_nat has fuel n + 1 for the digits
-- of n.
--
-- Not modelled: HTTP, JSON, TLS and authentication; invalid UTF-8; the escapes of %q for characters that
-- do not print; the cancellation of a context other than by its deadline; Create; of the state that
-- Read and Update write, all but the name and the private state; the other resources
-- and the data sources, which are forms over REST; the NoCloud image, which a third-party library writes; diagnostics beyond
-- their attribute and summary. In a guest's model a map of strings holds known texts, as the framework
-- refuses to convert the others; the check of the raw entries takes them as they are configured.
pub mod Prelude
pub mod Int
pub mod Text
pub mod Value
pub mod Diagnostic
pub mod Config
pub mod Device
pub mod Client
pub mod Vm
pub mod Tests
