-- ===== src/Shade.antt =====
-- pkg: the package tools over the store of realized packages.
pub mod Names
pub mod StoreFs
pub mod Db
pub mod Record
pub mod Write
pub mod Tests
