-- ===== src/Rfs2.antt =====
-- fs/rfs2/src: the copy-on-write file system.
pub mod Layout
pub mod Inode
pub mod Device
pub mod Transform
pub mod Superblock
pub mod Space
pub mod Fs
pub mod Map
pub mod Mark
pub mod Dirent
pub mod Tests
