-- ===== src/Ntfs/Attrs/Inspect.antt =====
-- ntfs_fskit.c, lines 104 to 216, 290 to 307 and 393 to 419: the attributes of a file.
pub mod Kinds
pub mod SystemFiles
use usbrw.Base.{
  ℕ, ◌+◌, ◌*◌, Bool, true, false, not, ◌&&◌, Option, none, some, ltb, leb, ◌==◌, if◌then◌else◌,
  length, bit_or,
}
use usbrw.Bridge.{Stat, blank_stat, enoent, enametoolong, eopnotsupp}
use usbrw.Bridge.Mode
use usbrw.Ext.Engine.{Name}
use usbrw.Ext.Reply.{Reply, done, failed, hangs, Op, return, refuse, ◌>>=◌, ◌>>◌, unless}
use usbrw.Ntfs.Attrs.{
  Node, Engine, DataAttr, Magic, Intx, symbolic_link, block_device, character_device, other_magic,
  uf_hidden, path_max, intx_read,
}
use usbrw.Ntfs.Call.{Info, Inodes, succeed_or, obtained, always, with_inode, needing, find}
use usbrw.Ntfs.Data.{Opening, opened, cannot}

module _ {S : Type 0} (e : Engine S) where
  abbrev i : Inodes S
  i = e.inodes

  module _ (mft : ℕ) where
    -- What all kinds of files have in common.
    pub common : Node → Stat
    common n = record blank_stat {
      mft = n.mft_no;
      links = n.link_count;
      atime = e.seconds n.last_access_time;
      ctime = e.seconds n.last_mft_change_time;
      mtime = e.seconds n.last_data_change_time;
      btime = e.seconds n.creation_time;
      flags = if n.is_hidden then uf_hidden else 0;
    }

    -- A reparse point that cannot be read as a link is one of length 0.
    abbrev pub target_size : Opening Name × S → Reply ℕ × S
    target_size (opened target, s) = (done (length target), s)
    target_size (cannot errno, s) = if errno == eopnotsupp then (done 0, s) else (failed errno, s)

    abbrev pub reparse_stat : Op S Stat
    reparse_stat = (λ s. target_size (e.make_symlink mft s)) >>= λ size s.
        let n = e.node mft s in
        (
          done (record (common n) {
            mode = Mode.full Mode.iflnk;
            size = size;
            alloc_size = n.allocated_size;
          }),
          s,
        )

    abbrev pub remembered : Option (ℕ × ℕ) × S → S
    remembered (none, s) = s
    remembered (some sizes, s) = e.cache_sizes mft sizes s

    abbrev pub measured : Bool → S → S
    measured true s = s
    measured false s = remembered (e.index_sizes mft s)

    abbrev pub directory_stat : Op S Stat
    directory_stat s =
        let s = measured (e.known_size mft s) s in
        let n = e.node mft s in
        (
          done (record (common n) {
            mode = Mode.full Mode.ifdir;
            size = n.data_size;
            alloc_size = n.allocated_size;
            links = 1;
          }),
          s,
        )

    -- The type bits and the size of a special file, by the magic number in its data.
    abbrev pub kind_of : (base size : ℕ) → Magic → Name → Op S (Bool × ℕ × ℕ)
    kind_of base size symbolic_link target =
        (λ s. obtained (e.ucstombs target, s)) >>= λ text. return (true, Mode.iflnk, length text)
    kind_of base size block_device target = return (true, Mode.ifblk, size)
    kind_of base size character_device target = return (true, Mode.ifchr, size)
    kind_of base size other_magic target = return (true, base, size)

    -- Nothing more is filled in after a read that is not whole.
    abbrev pub classified : (base size : ℕ) → Option Intx → Op S (Bool × ℕ × ℕ)
    classified base size none = return (false, base, size)
    classified base size (some intx) = kind_of base size intx.magic intx.target

    -- An empty file is a fifo and one of one byte a socket, unless it is hidden.
    abbrev pub base_kind : (hidden : Bool) → (data_size : ℕ) → ℕ
    base_kind hidden data_size =
        if hidden
        then Mode.ifreg
        else if data_size == 0
        then Mode.ififo
        else if data_size == 1
        then Mode.ifsock
        else Mode.ifreg

    abbrev pub malloc : ℕ → Op S (Unit {0})
    malloc size s = succeed_or tt (e.malloc_errno size, s)

    abbrev pub intx : ℕ → Op S (Option Intx)
    intx size s = intx_read size (e.pread_intx mft size s)

    abbrev pub special : Node → DataAttr → Op S (Bool × ℕ × ℕ)
    special n attr =
        let base = base_kind n.is_hidden attr.data_size in
        if ltb e.intx_header attr.data_size && leb attr.data_size (e.intx_header + 2 * path_max)
        then malloc attr.data_size >> (intx attr.data_size >>= classified base n.data_size)
        else return (true, base, n.data_size)

    -- A system file whose data cannot be opened counts as a regular file.
    abbrev pub examined : Node → Opening DataAttr × S → Reply (Bool × ℕ × ℕ) × S
    examined n (cannot _, s) = (done (true, Mode.ifreg, n.data_size), s)
    examined n (opened attr, s) = always (e.close_data mft) (special n attr) s

    -- Whether all is filled in, the type bits and the size.
    abbrev pub kind : (system : Bool) → Node → Op S (Bool × ℕ × ℕ)
    kind true n s = examined n (e.open_data mft s)
    kind false n s = (done (true, Mode.ifreg, n.data_size), s)

    abbrev pub filled : Node → Bool × ℕ × ℕ → Stat
    filled n (true, mode, size) = record (common n) {
      mode = Mode.full mode;
      size = size;
      alloc_size = n.allocated_size;
    }
    filled n (false, mode, size) = record blank_stat {
      mft = n.mft_no;
      links = n.link_count;
      mode = mode;
      size = size;
      alloc_size = n.allocated_size;
    }

    abbrev pub file_stat : (system : Bool) → Node → Op S Stat
    file_stat system n = kind system n >>= λ found. return (filled n found)

    abbrev pub stat_of : (reparse directory system : Bool) → Node → Op S Stat
    stat_of true directory system n = reparse_stat
    stat_of false true system n = directory_stat
    stat_of false false system n = file_stat system n

    pub fill_stat : Op S Stat
    unfolding common
    fill_stat s = let n = e.node mft s in stat_of n.is_reparse n.is_directory n.is_system n s

    unfoldable pub getattr : (usable : Bool) → Op S Stat
    unfolding fill_stat
    getattr usable = needing usable (unless (leb mft 1) enoent (with_inode i mft λ _. fill_stat))

  abbrev pub found_number : Opening ℕ → Op S ℕ
  found_number (cannot _) = refuse enoent
  found_number (opened ino) = unless (leb ino 1) enoent (return ino)

  abbrev pub with_stat : Bool → ℕ → Op S (ℕ × Option Stat)
  with_stat true ino = with_inode i ino (λ _. fill_stat ino) >>= λ st. return (ino, some st)
  with_stat false ino = return (ino, none)

  -- The caller may want the number alone.
  unfoldable pub lookup :
      (usable : Bool) → (dir : ℕ) → Name → (want_stat : Bool) → Op S (ℕ × Option Stat)
  unfolding fill_stat
  lookup usable dir name want_stat = needing usable (
      unless (leb 256 (length name)) enametoolong
        (do found ← find i dir name; ino ← found_number found; with_stat want_stat ino))
