-- ===== src/Lib.antt =====
-- PureshadeOS: the parts of the Lythos microkernel and of its file-system layer that decide who may
-- do what and which file system a path reaches, modelled from the Rust sources and proved correct.
--
-- The kernel (kernel/src) runs tasks. A task holds a table of capabilities, each naming a kernel
-- object with rights; it talks to other tasks through endpoints, rings of 63 messages of 64 bytes
-- that may carry one capability along; and it names files by paths, which a mount table routes to
-- the file system mounted with the longest prefix. Memory is
-- handed out in frames. A mounted file system keeps its blocks on a device by copying on write. A
-- package store on it is cleaned by a collector. The parts below are those six.
--
-- Base holds what they share: numbers are native, with the wrap-around of machine words written out
-- (`% 2 ^ 32`); lists measured by native numbers; bits and bytes of numbers and buffers; results
-- with `?` as a bind; names as lists of bytes, compared as the sources compare strings.
--
-- Cap models kernel/src/cap.rs.
--   Cap.Rights    `CapRights`: `has`, `intersect` (kept apart from the objects they guard).
--   Cap.Types     `CapKind`, `KernelObject`, `CapError`, `Capability`, and the packing of index and
--                 generation that `CapHandle` and `KernelObjectRef` share.
--   Cap.Slots     the slot list that `KoTable` and `CapabilityTable` are both written as.
--   Cap.Objects   `KoTable`: `create`, `get`, `destroy`.
--   Cap.Table     `CapabilityTable`: `insert`, `get`, `get_mut` (as `push_child`, its one use),
--                 `take`, `has_kind`, `has_kind_with_rights`, `find_children`.
--   Cap.Ops       `create_root_cap`, `cap_grant`, `cap_inherit`, `cap_revoke`; the static counter
--                 `NEXT_CAP_ID` is passed in and out.
--   Cap.Cascade   `cap_cascade_revoke` and `cascade_force` over the tables of all tasks. The
--                 recursion is on fuel; one more unit than there are capabilities is enough, since
--                 every call that recurses has first taken one out.
--
-- Ipc models kernel/src/ipc.rs.
--   Ipc.Ring      `RingBuffer`: counters, slots and the bytes of the page.
--   Ipc.Endpoint  `IpcEndpoint` with `create_endpoint`, `send`, `recv`, their variants with a
--                 capability, with a timeout, and `try_recv`; `bind_name` and `lookup_name`. Each
--                 loop is modelled by one of its passes; a task that blocks and is woken makes
--                 another pass, so a run is a list of passes by any tasks in any order.
--
-- Vfs models fs/vfs-core/src and the parts of kernel/src/vfs.rs above it.
--   Vfs.Paths     the path helpers of mount.rs and realize.rs, over the bytes of a path.
--   Vfs.Store     `BackendStore`, `FsError`, `InodeMeta`; `FsBackend` is the interface of which
--                 `mount` calls `stat`, and every backend is a parameter.
--   Vfs.Mount     `MountTable`: `covering_index`, `mount`, `resolve`, `unmount`.
--   Vfs.Realize   `RealizeGuard`: the seals of the package store.
--   Vfs.Namespace `Namespaces`, and `unmount` of kernel/src/vfs.rs.
--
-- Pmm models kernel/src/pmm.rs: the bitmap of frames in 64-bit words (`set_used`, `set_free`,
-- `is_used`), `init_from_limine`, `alloc_frame`, `free_frame` and the contiguous variants of the two.
-- A failed assertion is the result `none`. The scan of `alloc_frames_contiguous` is on fuel; one more
-- unit than there are frames (`max_frames`) is enough, since each pass moves the start on.
--
-- Rfs2 models fs/rfs2/src, the copy-on-write file system.
--   Rfs2.Layout      `BlockPtr`, `StaticHeader`, the constants and `Error`. A buffer is a list of bytes,
--                    and an encoder is the list of its writes (Base.Writes), in the order of the source.
--   Rfs2.Inode       `Inode` with its encoder and decoder.
--   Rfs2.Device      the trait `BlockDevice`, an interface; Rfs2.Device.Crash states what it promises
--                    about a loss of power: a write that is not flushed may be found in any state.
--                    Rfs2.Device.Watched is a device that keeps the states it was in, to speak
--                    of a loss of power at any write.
--   Rfs2.Transform   the trait `BlockTransform`, an interface with its laws, `seal_superblock` and
--                    `open_superblock`, and `IdentityTransform`.
--   Rfs2.Superblock  `Superblock`, `write_slot`, `read_slot`.
--   Rfs2.Dirent      dirent.rs: the records of a directory block and every operation on them. The parse
--                    is on fuel, one more than the headers that fit into a block, which is enough
--                    since every record has a header.
--   Rfs2.Space       `Bitmap` of space.rs. A bit beyond its words reads as not set, where the sources panic.
--   Rfs2.Fs          of fs.rs the state `Rfs2`, `alloc_block`, `write_fresh`, `retire`, `begin_op`,
--                    `fail_op`, `check_rw`, `commit`, and the choice between the slots in `mount`. The
--                    generation stays below `GEN_LIMIT`, so that `txn_gen` does not wrap.
--   Rfs2.Map         of fs.rs the inode map: `imap_get`, `imap_set` and what they are made of, and
--                    `read_ptr` of space.rs. The loop of `grow_imap` has ten rounds, one for each
--                    height from 0 to 9, which is enough: at height 9 the capacity is that of 64 bits.
--   Rfs2.Mark        of space.rs the mark phase of a mount; the recursion is on the height. A pointer
--                    beyond the bitmap ends it as the bounds check of the words does (`panic`).
--
-- Shade models the garbage collector of the package store, pkg/shade-store-db/src/lib.rs.
--   Shade.Names      store names, the digests in them, and `scan_bytes`. Texts are bytes: those of the
--                    database are ASCII.
--   Shade.StoreFs    the trait `StoreFs` of pkg/shade-store/src/backend.rs, an interface.
--   Shade.Db         `StoreDb`, `collect_roots`, `mark_closure`, `scan_tree`. The loop of `mark_closure` is
--                    on fuel; the roots and the references of all digests are enough. `scan_tree` and
--                    `entry_size` are on fuel for the depth of the tree; below that depth
--                    `entry_size` counts nothing.
--   Shade.Db.Gc      `gc`, from the check of the builds in flight on.
--   Shade.Record     `ValidRecord` and its text. The digits of a number are on fuel 20, enough for 64 bits.
--   Shade.Write      `write_atomic`, with `create_dir_all`, `split_parent` and `temp_sibling` of backend.rs;
--                    the process's count of temporary files is an argument.
--
-- The maps of the sources (`BTreeMap`, `BTreeSet`) are lists of their entries, searched by key: no
-- modelled operation depends on their order.
--
-- Not modelled: memory addresses, page tables, locks and the scheduler (a woken task is only named);
-- the system call layer above these parts; of fs/rfs2 the block maps of files and the
-- operations by path above the transactions; of the package tools
-- pkg all but the collector, and of it the lock of the database, whose loop depends on a clock; the
-- userspace.
pub mod Base
pub mod Cap
pub mod Ipc
pub mod Vfs
pub mod Pmm
pub mod Rfs2
pub mod Shade
