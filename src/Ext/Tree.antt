-- ===== src/Ext/Tree.antt =====
-- ext_fskit.c, lines 501 to 730 and 771 to 809: creating, unlinking, renaming, symbolic links.
pub mod Unlinks
pub mod Creates
use usbrw.Base.{
  ℕ, ◌-◌, ◌%◌, ◌^◌, Bool, true, false, not, ◌&&◌, ◌||◌, [], ◌∷◌, bit_and, bit_or, ltb, ◌==◌,
  if◌then◌else◌, length, take,
}
use usbrw.Base.Int.{pos, negsuc}
use usbrw.Bridge.{einval, enametoolong}
use usbrw.Bridge.Mode
use usbrw.Ext
use usbrw.Ext.{ErrCode, dir_no_space, Result, ok, err, diverges, Act}
use usbrw.Ext.Engine.{Engine, Inode, Name, DirEntry, Verdict, go_on, changed_abort}
use usbrw.Ext.Files.{u32, file_type}
use usbrw.Ext.Reply.{done, Op, return, ◌>>=◌, ◌>>◌, translated, unless}

-- EXT2_FT_REG_FILE and EXT2_FT_DIR.
abbrev pub ft_reg_file : ℕ
ft_reg_file = 1

abbrev pub ft_dir : ℕ
ft_dir = 2

abbrev pub is_dir : Inode → Bool
is_dir inode = file_type inode.i_mode == Mode.ifdir

-- The name is "..".
abbrev pub is_dotdot : Name → Bool
is_dotdot (a ∷ b ∷ []) = a == b'.' && b == b'.'
is_dotdot _ = false

-- The first entry ".." is pointed at the new parent.
unfoldable pub dotdot_helper : ℕ → DirEntry → Verdict
dotdot_helper new_parent entry =
    if entry.name_len == 2 && is_dotdot (take 2 entry.name)
    then changed_abort (record entry { inode = new_parent })
    else go_on

-- A new inode with one link; the times are now.
pub fresh_inode : (mode uid gid now : ℕ) → Inode
fresh_inode mode uid gid now = record {
  i_mode = mode;
  i_links_count = 1;
  i_uid = uid % 2 ^ 16;
  i_gid = gid % 2 ^ 16;
  i_size = 0;
  i_blocks = 0;
  i_atime = now;
  i_mtime = now;
  i_ctime = now;
  i_dtime = 0;
  i_block = [];
}

module _ {S : Type 0} (e : Engine S) where
  -- A result that is only used if the call succeeds: a failure is passed over.
  abbrev pub if_ok : {A : Type 0} → Result A × S → (A → S → S) → S
  if_ok (ok a, s) k = k a s
  if_ok (err c, s) k = s
  if_ok (diverges, s) k = s

  -- A directory that is full is extended by a block, and the link tried once more.
  link_again : ℕ → Name → ℕ → Result (Unit {0}) × S → Result (Unit {0}) × S
  link_again dir name ino (err dir_no_space, s) =
      Ext.and_then (e.expand_dir dir s) (λ _. e.link dir name ino ft_reg_file)
  link_again dir name ino r = r

  pub link_file : ℕ → Name → ℕ → Act S (Unit {0})
  unfolding link_again
  link_file dir name ino s = link_again dir name ino (e.link dir name ino ft_reg_file s)

  pub dec_links : Inode → Inode
  dec_links inode = record inode { i_links_count = inode.i_links_count - 1 }

  -- The parent of a removed directory loses the link of its "..".
  drop_parent : ℕ → S → S
  unfolding dec_links
  drop_parent parent s =
      if parent == 0
      then s
      else if_ok (e.read_inode parent s) λ p s.
        if ltb 1 p.i_links_count
        then (e.write_inode parent (record (dec_links p) { i_mtime = e.time s }) s).1
        else s

  -- The blocks are given back, all of them.
  release_blocks : ℕ → Inode → Op S Inode
  release_blocks ino inode =
      if e.has_valid_blocks inode then translated (e.punch ino inode 0) else return inode

  -- kill: what is left to do once the name of a directory is gone.
  kill_dir : ℕ → Inode → ℕ → Op S (Unit {0})
  unfolding drop_parent release_blocks
  kill_dir ino inode parent s =
      let gone = record inode { i_links_count = 0; i_dtime = e.time s } in
      (do
        inode ← release_blocks ino gone
        λ s. translated (e.write_inode ino inode) (e.alloc_stats ino (negsuc 0) true s))
        (drop_parent parent s)

  -- kill: the same for a file, which may have other names.
  kill_file : ℕ → Inode → Op S (Unit {0})
  unfolding release_blocks dec_links
  kill_file ino inode s =
      let less = dec_links inode in
      if inode.i_links_count == 0
      then (done tt, s)
      else if less.i_links_count == 0
      then (do
        inode ← release_blocks ino (record less { i_dtime = e.time s })
        λ s. translated (e.write_inode ino inode) (e.alloc_stats ino (negsuc 0) false s))
          s
      else translated (e.write_inode ino (record less { i_ctime = e.time s })) s

  pub after_unlink : ℕ → (kill : Bool) → ℕ → Op S (Unit {0})
  unfolding kill_dir kill_file
  after_unlink ino kill parent = do
    inode ← translated (e.read_inode ino)
    if not kill
        then (λ s. translated (e.write_inode ino (record inode { i_ctime = e.time s })) s)
        else if is_dir inode
        then kill_dir ino inode parent
        else kill_file ino inode

  -- The number of the file that a name stands for, unless the caller knows it.
  hinted : ℕ → Name → ℕ → Op S ℕ
  hinted dir name hint = if hint == 0 then translated (e.lookup dir name) else return hint

  unfoldable pub create_dir : ℕ → Name → Op S ℕ
  create_dir dir name = do translated (e.mkdir dir name); translated (e.lookup dir name)

  create_file : ℕ → Name → (mode uid gid : ℕ) → Op S ℕ
  unfolding fresh_inode
  create_file dir name mode uid gid = do
    child ← translated (e.new_inode dir mode)
    translated (link_file dir name child)
    (λ s. translated (e.write_new_inode child (fresh_inode mode uid gid (e.time s))) s)
    λ s. (done child, e.alloc_stats child (pos 1) false s)

  module _ (live : Bool) where
    pub unlink : ℕ → Name → ℕ → Op S (Unit {0})
    unfolding hinted
    unlink dir name hint = unless (not live) einval do
      ino ← hinted (u32 dir) name (u32 hint)
      translated (e.unlink (u32 dir) name ino)
      after_unlink ino true (u32 dir)

    unfoldable pub create : ℕ → Name → (kind mode uid gid : ℕ) → Op S ℕ
    unfolding create_dir create_file
    create dir name kind mode uid gid = unless (not live) einval (
        unless (ltb 255 (length name)) enametoolong (
          if kind == b'd'
          then create_dir (u32 dir) name
          else create_file (u32 dir) name (bit_or (bit_and mode 0o7777) Mode.ifreg) uid gid))

    unfoldable pub symlink : ℕ → Name → Name → Op S ℕ
    symlink dir name target = unless (not live) einval (
        unless (ltb 255 (length name) || ltb 4095 (length target)) enametoolong
          (do translated (e.symlink (u32 dir) name target); translated (e.lookup (u32 dir) name)))
