-- ===== src/Ext/Files.antt =====
-- ext_fskit.c, lines 294 to 388, 459 to 497 and 732 to 767: the volume, attributes and data.
pub mod Lookups
pub mod Sizes
use usbrw.Base.{
  ℕ, ◌+◌, ◌-◌, ◌*◌, ◌/◌, ◌%◌, ◌^◌, Bool, true, false, not, ◌&&◌, Option, none, some, List, bit_and,
  ltb, ◌==◌, if◌then◌else◌,
}
use usbrw.Bridge.{Stat, blank_stat, Statfs, einval, enoent, eio}
use usbrw.Bridge.Mode
use usbrw.Device.{bit_clear}
use usbrw.Ext
use usbrw.Ext.Reply
use usbrw.Ext.{ErrCode, file_not_found, block_alloc_fail, Result, ok, err, diverges}
use usbrw.Ext.Engine.{Engine, Inode, Name}
use usbrw.Ext.Reply.{
  Reply, done, failed, hangs, Op, return, refuse, ◌>>=◌, ◌>>◌, translate_errno, or_reply,
  translated, or_eio, unless, cleaning,
}

-- (ext2_ino_t) and (unsigned int).
abbrev pub u32 : ℕ → ℕ
u32 n = n % 2 ^ 32

abbrev pub file_type : ℕ → ℕ
file_type mode = bit_and mode Mode.ifmt

-- The type bits that are reported: what is no directory, file, link, fifo or socket is a file.
unfoldable pub stat_mode : ℕ → ℕ
stat_mode kind =
    if kind == Mode.ifdir
    then Mode.full Mode.ifdir
    else if kind == Mode.ifreg
    then Mode.full Mode.ifreg
    else if kind == Mode.iflnk
    then Mode.full Mode.iflnk
    else if kind == Mode.ififo
    then Mode.full Mode.ififo
    else if kind == Mode.ifsock
    then Mode.full Mode.ifsock
    else Mode.full Mode.ifreg

unfoldable pub fill_stat : Inode → ℕ → Stat
fill_stat inode ino = record blank_stat {
  mft = ino;
  links = inode.i_links_count;
  uid = inode.i_uid;
  gid = inode.i_gid;
  size = inode.i_size;
  alloc_size = inode.i_blocks * 512 % 2 ^ 64;
  mode = stat_mode (file_type inode.i_mode);
  atime = inode.i_atime;
  mtime = inode.i_mtime;
  ctime = inode.i_ctime;
}

-- The errors of `extfsk_lookup`.
unfoldable pub lookup_errno : ErrCode → ℕ
lookup_errno file_not_found = enoent
lookup_errno _ = eio

-- A read whose code is one of two counts what it got.
unfoldable pub tolerated : Result (Unit {0}) → Bool
tolerated (ok _) = true
tolerated (err file_not_found) = true
tolerated (err block_alloc_fail) = true
tolerated _ = false

-- The first block behind the new end: (newsize + bs - 1) & ~(bs - 1), in blocks.
pub punch_start : (bs newsize : ℕ) → ℕ
punch_start bs newsize = bit_clear ((newsize + bs - 1) % 2 ^ 64) (bs - 1) / bs

module _ {S : Type 0} (e : Engine S) where
  -- The size is set to `size`, whatever it was.
  unfoldable pub update_inode_size : ℕ → ℕ → Op S (Unit {0})
  update_inode_size ino size = do
    inode ← or_eio (e.read_inode ino)
    inode ← translated (λ s. (e.size_set inode size, s))
    λ s.
        let now = e.time s in
        or_eio (e.write_inode ino (record inode { i_mtime = now; i_ctime = now; i_atime = now })) s

  -- The write, and the flush if it went well; the file is closed in any case.
  unfoldable pub write_and_flush : ℕ → List ℕ → Op S ℕ
  write_and_flush f bytes s =
      let ((code, written), s) = e.file_write f bytes s in
      let (r, s) = or_reply translate_errno (Ext.and_then (code, s) (λ _. e.file_flush f)) in
      Reply.and_then (r, e.file_close f s) (λ _. return written)

  -- Shrinking gives the blocks behind the new end back.
  shrink : ℕ → Inode → ℕ → Op S Inode
  unfolding punch_start
  shrink ino inode newsize s =
      if ltb newsize inode.i_size && e.has_valid_blocks inode
      then translated (e.punch ino inode (punch_start (e.super s).block_size newsize)) s
      else return inode s

-- `live`: the volume, its file system and the pointers that the operation needs are not NULL.
module _ {S : Type 0} (e : Engine S) (live : Bool) where
  unfoldable pub fsstat : Op S Statfs
  fsstat = unless (not live) einval λ s.
      let super = e.super s in
      (
        done (record {
          bsize = super.block_size;
          total_bytes = super.blocks_count * super.block_size % 2 ^ 64;
          free_bytes = super.free_blocks_count * super.block_size % 2 ^ 64;
          total_files = super.s_inodes_count;
          free_files = super.s_free_inodes_count;
          name = super.s_volume_name;
        }),
        s,
      )

  unfoldable pub getattr : ℕ → Op S Stat
  getattr ino =
      unless (not live) einval
        do inode ← or_eio (e.read_inode (u32 ino)); return (fill_stat inode ino)

  -- `out_stat` may be NULL; the number found is in the first component.
  unfoldable pub lookup : ℕ → Name → (want_stat : Bool) → Op S (ℕ × Option Stat)
  lookup dir name want_stat = unless (not live) einval do
    ino ← (λ s. or_reply lookup_errno (e.lookup (u32 dir) name s))
    if want_stat then getattr ino >>= (λ st. return (ino, some st)) else return (ino, none)

  unfoldable pub read : ℕ → ℕ → ℕ → Op S (List ℕ)
  unfolding tolerated
  read ino offset len = unless (not live) einval do
    f ← or_eio (e.file_open (u32 ino) false)
    cleaning (e.file_close f) (or_eio (e.file_lseek f (e.off_cast offset)))
    λ s.
        let ((code, got), s) = e.file_read f (u32 len) s in
        let s = e.file_close f s in if tolerated code then (done got, s) else (failed eio, s)

  unfoldable pub write : ℕ → ℕ → List ℕ → Op S ℕ
  unfolding write_and_flush
  write ino offset bytes = unless (not live) einval do
    f ← translated (e.file_open (u32 ino) true)
    cleaning (e.file_close f) (translated (e.file_lseek f (e.off_cast offset)))
    written ← write_and_flush e f bytes
    update_inode_size e (u32 ino) ((offset + written) % 2 ^ 64)
    return written

  unfoldable pub fsync : Op S (Unit {0})
  fsync = unless (not live) einval λ s. (done tt, e.flush s)

  pub truncate : ℕ → ℕ → Op S (Unit {0})
  unfolding shrink
  truncate ino newsize = unless (not live) einval do
    inode ← translated (e.read_inode (u32 ino))
    inode ← shrink e (u32 ino) inode newsize
    inode ← translated (λ s. (e.size_set inode newsize, s))
    λ s.
        let now = e.time s in
        translated (e.write_inode (u32 ino) (record inode { i_mtime = now; i_ctime = now })) s
