-- ===== src/Lib.antt =====
-- The bridge of usbrw between the file system kit of macOS and the libraries libntfs-3g and
-- libext2fs: the C files of src/ntfs3g/bridge.
--
-- The Swift extension hands the bridge a record of callbacks that read and write the block device
-- (`nfsk_blockio`). For NTFS, ntfs_device_fskit.c makes a device of it for libntfs-3g; for ext4,
-- ext_fskit.c makes an io_manager of it for libext2fs. Above the libraries, ext_fskit.c offers file
-- operations, which name a file by its inode number.
--
-- Bridge.antt: the types of ntfs_fskit.h, and the state that a device call changes: what stands
--   behind the callbacks' context pointer, errno, and the last message of the log.
-- Bytes.antt: the bytes of a device as a function of the offset, with what reads and writes do.
-- Device.antt and Device/: `fskit_pread`, `fskit_pwrite` and the other device operations. Pread and
--   Pwrite cut a request into head, middle and tail as the code does; Refines relates them to a
--   read or write of bytes, Safety says what they do whatever the callbacks return, RoundTrip
--   relates the two, Medium has what is asked of the callbacks.
-- Mount.antt and Mount/: `nfsk_open_ex`, `nfsk_close`, `nfsk_sync_volume` and the lock, with what
--   they hold on to (Balance), and the removal of the hibernation file (Hiberfile).
-- Ext/Channel.antt: the io_manager, by blocks and by bytes (Reads, Writes).
-- Ext/Engine.antt: the calls of libext2fs that the bridge makes, as a record of functions on an
--   abstract state: that library is no part of the repository. Ext/Library.antt: what the bridge
--   relies on of them for names, link counts and inodes in use, when no input or output fails.
-- Ext/Open.antt: `extfsk_open` and `extfsk_close`.
-- Ext/Files.antt, Ext/Dir.antt, Ext/Tree.antt, Ext/Rename.antt: the operations on attributes and
--   data, directories, names and links. A return of -errno is `failed errno`. Their behaviour over
--   that library is in Ext/Files/Sizes, Ext/Dir/Delivery, Ext/Dir/Resume, Ext/Tree/Unlinks,
--   Ext/Tree/Creates and Ext/Rename/Moves, with Ext/Library/View as the specification: a table of
--   names, link counts and marks.
--
-- Ntfs/Readdir.antt: `nfsk_readdir`, which keeps each entry back until the next has come, over
--   libntfs-3g as a record of functions; Delivery and Resume have what it delivers.
-- Ntfs/Data.antt: `nfsk_read` and `nfsk_write`, whose loops go on until all bytes are moved.
-- Ntfs/Call.antt: what the other operations of ntfs_fskit.c share: opening an inode, the operation on
--   it and closing it, names in Unicode, and a lookup by name. A call of libntfs-3g that may fail
--   returns an `Opening` or an optional errno. Call/Holds and Call/Keeps have the rules by which
--   assertions pass along such chains of calls.
-- Ntfs/Rename.antt: `nfsk_unlink`, `nfsk_link` and `nfsk_rename`, which moves a target that is there
--   to a temporary name first. Safety is about the names that are left whichever calls fail; Handles
--   is about the inodes held open.
-- Ntfs/Xattr.antt: extended attributes, which are data streams by other names. Streams has a table of
--   byte strings as the specification; Listing is about what is told to the callback.
-- Ntfs/Attrs/Inspect.antt: `fill_stat`, `nfsk_getattr`, `nfsk_lookup` and `nfsk_fsstat`, with the kinds
--   of file in Kinds and SystemFiles. Ntfs/Attrs/Change.antt: `nfsk_setattr`, `nfsk_truncate` and
--   `nfsk_fsync`; Laws says
--   what the bridge relies on and Applied is about which attributes change. SpecialData is about the
--   reading of a special file as a whole, which Inspect and Create share.
-- Ntfs/Locks.antt: the recursive lock among threads, and the public functions at the end of
--   ntfs_fskit.c that take it around each operation. An operation is a sequence of accesses to the
--   library, and other threads may run between any two. Sections is about what happens from taking the
--   lock to giving it back, Clients about threads that call the public functions.
-- Ntfs/Create.antt: `nfsk_create`, `nfsk_symlink` and `nfsk_readlink`; News is about what is made and
--   Links about the text of a link.
--
-- Numbers are natural numbers. In the block device, the io_manager and the attributes, where the C code
-- computes in 64 or 32 bits, the wrap-around is written out. In Ntfs/Data offsets and lengths are taken
-- to be below 2 ^ 63, where the casts to s64 change nothing. The loops over bytes of the io_manager and
-- of the reading and writing of files and of attributes run on as much fuel as there are bytes, which
-- is enough, since each round takes one byte or more.
--
-- Not modelled: the 65536 bytes of `g_byte_buf` (blocks are no larger, as the C file says), offsets and
-- lengths of 2 ^ 63 or more in Ntfs/Data, the texts of messages, what a failed call leaves in the
-- caller's buffer, `ext_io_close`, the Swift code, and ext_journal_replay.c, which only includes other
-- files.
pub mod Base
pub mod Bytes
pub mod Bridge
pub mod Device
pub mod Ext
pub mod Mount
pub mod Ntfs
