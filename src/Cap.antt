-- ===== src/Cap.antt =====
-- kernel/src/cap.rs: unforgeable tokens that grant access to kernel objects.
pub mod Rights
pub mod Types
pub mod Slots
pub mod Objects
pub mod Table
pub mod Ops
pub mod Cascade
mod Tests
