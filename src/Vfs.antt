-- ===== src/Vfs.antt =====
-- The virtual file system: fs/vfs-core/src and the parts of kernel/src/vfs.rs above it.
pub mod Paths
pub mod Store
pub mod Mount
pub mod Realize
pub mod Namespace
mod Tests
