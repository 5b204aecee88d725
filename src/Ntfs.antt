-- ===== src/Ntfs.antt =====
-- ntfs_fskit.c: the operations on the files of an NTFS volume.
mod Locks
pub mod Call
pub mod Rename
pub mod Xattr
pub mod Attrs
pub mod Create
pub mod Readdir
pub mod Data
mod Tests
