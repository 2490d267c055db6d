-- ===== src/Client.antt =====
-- The Proxmox API client: errors and tasks (internal/provider/client.go, client_task.go).
pub mod Error
pub mod Task
