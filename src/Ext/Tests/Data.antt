-- ===== src/Ext/Tests/Data.antt =====
-- Runs of the operations on attributes and data, on the disk of the tests of names.
use usbrw.Base.{ℕ, ◌+◌, ◌*◌, ◌<◌, ◌≤◌, ◌≡◌, refl, true, false, some, [], ◌∷◌, arith}
use usbrw.Bridge.{enoent, einval}
use usbrw.Bridge.Mode
use usbrw.Ext.{ok}
use usbrw.Ext.Engine.{DirEntry, changed_abort, go_on}
use usbrw.Ext.Files.{
  write, write_and_flush, update_inode_size, fsstat, getattr, fill_stat, stat_mode, lookup,
  lookup_errno, read, tolerated, fsync, truncate, punch_start,
}
use usbrw.Ext.Files.Sizes.{write_size, truncate_lem, punch_start_lem}
use usbrw.Ext.Library.View.{Shelf, shelve}
use usbrw.Ext.Rename.{readlink}
use usbrw.Ext.Reply.{done, failed}
use usbrw.Ext.Tests.Names.{disk}
use usbrw.Ext.Tests.Toy.{toy, toy-Library}
use usbrw.Ext.Tree.{create, create_dir, symlink, dotdot_helper}
use usbrw.Ext.Engine.{Inode}

-- The disk once the file 12 was given a size.
abbrev sized : ℕ → Shelf
sized n =
    shelve 12 (record (disk.inode 12) { i_size = n; i_atime = 7; i_mtime = 7; i_ctime = 7 }) disk

-- The same once it was written to: the new size, and the time in all three stamps.
abbrev stamped : ℕ → Shelf → Shelf
stamped n s =
    shelve 12 (record (s.inode 12) { i_size = n; i_atime = 7; i_mtime = 7; i_ctime = 7 }) s

-- Two bytes at offset 3 of a file of 100 bytes.
write_run : write toy true 12 3 (1 ∷ 2 ∷ []) (sized 100) ≡ (done 2, stamped 5 (sized 100))
unfolding write write_and_flush update_inode_size
write_run = refl

toy-SetsSize : (i : Inode) (size : ℕ) (i' : Inode) → toy.size_set i size ≡ ok i' → i'.i_size ≡ size
toy-SetsSize i size i' h = ground arith

write_size_example : ((stamped 5 (sized 100)).inode 12).i_size ≡ 5
write_size_example =
    write_size toy-Library toy-SetsSize 12 3 (1 ∷ 2 ∷ []) 2 (sized 100) (stamped 5 (sized 100))
      write_run

truncate_lem_example :
    (w : Shelf) × (i : Inode) × (truncate toy true 12 10 (sized 100) ≡ (done tt, w))
    × (i.i_size ≡ 10)
    × (w ≡ shelve 12 i (sized 100))
truncate_lem_example =
    truncate_lem toy-Library toy-SetsSize 12 10 (sized 100) (λ i. (record i { i_size = 10 }, refl))

punch_start_lem_example :
    (5000 ≤ punch_start 4096 5000 * 4096) × (punch_start 4096 5000 * 4096 < 5000 + 4096)
punch_start_lem_example = punch_start_lem 12 5000 (omega arith)

attributes :
    (getattr toy true 12 (sized 100) ≡ (done (fill_stat ((sized 100).inode 12) 12), sized 100))
    × (stat_mode Mode.ifdir ≡ 0o040777)
    × (getattr toy false 12 (sized 100) ≡ (failed einval, sized 100))
    × (fsync toy true disk ≡ (done tt, disk))
unfolding getattr stat_mode fsync
attributes = (refl, refl, refl, refl)

volume :
    (fsstat toy true disk).0
    ≡ done (record {
      bsize = 1024;
      total_bytes = 102400;
      free_bytes = 51200;
      total_files = 32;
      free_files = 16;
      name = [];
    })
unfolding fsstat
volume = refl

lookups :
    (lookup toy true 2 (b'a' ∷ []) true (sized 100)
      ≡ (done (12, some (fill_stat ((sized 100).inode 12) 12)), sized 100))
    × (lookup toy true 2 (b'x' ∷ []) true disk ≡ (failed enoent, disk))
unfolding lookup lookup_errno getattr
lookups = (refl, refl)

reads :
    (read toy true 12 0 10 disk ≡ (done [], disk))
    × (readlink toy true 12 10 disk ≡ (failed einval, disk))
unfolding read tolerated readlink
reads = (refl, refl)

makes :
    ((symlink toy true 2 (b'l' ∷ []) (b'a' ∷ []) disk).0 ≡ done 99)
    × ((create toy true 2 (b'n' ∷ []) b'd' 0o755 501 20 disk).0 ≡ done 99)
unfolding symlink create create_dir
makes = (refl, refl)

abbrev dotdot : DirEntry
dotdot = record { offset = 12; rec_len = 1012; name_len = 2; name = b'.' ∷ b'.' ∷ []; inode = 2 }

-- Only the entry ".." is changed.
repointed :
    (dotdot_helper 30 dotdot ≡ changed_abort (record dotdot { inode = 30 }))
    × (dotdot_helper 30 (record dotdot { name_len = 1 }) ≡ go_on)
unfolding dotdot_helper
repointed = (refl, refl)
