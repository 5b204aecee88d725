-- ===== src/Ext/Engine.antt =====
-- libext2fs as the bridge sees it: the calls that ext_fskit.c makes, over an abstract state `S`
-- that stands for the open file system with everything behind it. The library is no part of the
-- repository, so every call is a field; nothing is assumed here of what a call does.
use usbrw.Base.{ℕ, Bool, List}
use usbrw.Base.Int.{ℤ}
use usbrw.Ext.{Result, Act}

-- A name or a link's target: the bytes of the C string, without its end.
abbrev pub Name : Type 0
Name = List ℕ

-- `struct ext2_inode`, the fields that the bridge reads or writes; `i_block` is the
-- text that a fast link keeps there, up to its first zero byte.
pub record Inode : Type 0 where
  pub i_mode : ℕ
  pub i_links_count : ℕ
  pub i_uid : ℕ
  pub i_gid : ℕ
  pub i_size : ℕ
  pub i_blocks : ℕ
  pub i_atime : ℕ
  pub i_mtime : ℕ
  pub i_ctime : ℕ
  pub i_dtime : ℕ
  pub i_block : Name

-- `struct ext2_dir_entry` with its offset in the directory.
pub record DirEntry : Type 0 where
  pub offset : ℕ
  pub rec_len : ℕ
  pub name_len : ℕ
  pub name : Name
  pub inode : ℕ

-- What `dir_iterate2` is told by the function that it calls for each entry.
pub data Verdict : Type 0 where
  go_on : Verdict
  abort : Verdict
  changed_abort : DirEntry → Verdict

-- The superblock's counts.
pub record Super : Type 0 where
  pub blocks_count : ℕ
  pub free_blocks_count : ℕ
  pub block_size : ℕ
  pub s_inodes_count : ℕ
  pub s_free_inodes_count : ℕ
  pub s_volume_name : Name

pub record Engine (S : Type 0) : Type 1 where
  pub super : S → Super
  pub time : S → ℕ
  pub flush : S → S
  pub read_inode : ℕ → Act S Inode
  pub write_inode : ℕ → Inode → Act S (Unit {0})
  pub write_new_inode : ℕ → Inode → Act S (Unit {0})
  pub new_inode : ℕ → ℕ → Act S ℕ
  pub alloc_stats : ℕ → ℤ → Bool → S → S
  pub lookup : ℕ → Name → Act S ℕ
  pub link : ℕ → Name → ℕ → ℕ → Act S (Unit {0})
  pub unlink : ℕ → Name → ℕ → Act S (Unit {0})
  pub expand_dir : ℕ → Act S (Unit {0})
  pub mkdir : ℕ → Name → Act S (Unit {0})
  pub symlink : ℕ → Name → Name → Act S (Unit {0})
  pub has_valid_blocks : Inode → Bool
  pub is_fast_symlink : Inode → Bool
  -- from a block on to the end; the inode in memory changes with it
  pub punch : ℕ → Inode → ℕ → Act S Inode
  pub size_set : Inode → ℕ → Result Inode
  -- the conversion of a 64-bit offset to `ext2_off_t`
  pub off_cast : ℕ → ℕ
  pub file_open : ℕ → Bool → Act S ℕ
  pub file_lseek : ℕ → ℕ → Act S (Unit {0})
  -- how many bytes were moved, beside the code
  pub file_read : ℕ → ℕ → S → (Result (Unit {0}) × List ℕ) × S
  pub file_write : ℕ → List ℕ → S → (Result (Unit {0}) × ℕ) × S
  pub file_flush : ℕ → Act S (Unit {0})
  pub file_close : ℕ → S → S
  pub dir_iterate2 :
      (P : Type 0)
      → ℕ
      → (DirEntry → P → S → (Verdict × P) × S)
      → P
      → S
      → (Result (Unit {0}) × P) × S
