-- ===== src/Ipc.antt =====
-- kernel/src/ipc.rs: message endpoints, each a ring of 64-byte slots in one 4 KiB page.
pub mod Ring
pub mod Endpoint
mod Tests
