-- ===== src/Ext/Rename.antt =====
-- `extfsk_rename` and `extfsk_readlink`.
pub mod Moves
use usbrw.Base.{ℕ, ◌+◌, ◌-◌, ◌%◌, ◌^◌, Bool, false, not, Option, ltb, ◌==◌, if◌then◌else◌, take}
use usbrw.Bridge.{Stat, einval}
use usbrw.Bridge.Mode
use usbrw.Ext.{Act}
use usbrw.Ext.Engine.{Engine, Name}
use usbrw.Ext.Files.{u32, file_type, lookup, read}
use usbrw.Ext.Reply.{Reply, done, failed, hangs, Op, return, ◌>>=◌, ◌>>◌, translated, unless}
use usbrw.Ext.Tree.{
  ft_dir, is_dir, dotdot_helper, if_ok, dec_links, link_file, after_unlink, unlink,
}

module _ {S : Type 0} (e : Engine S) where
  -- The ".." of a directory that moved is pointed at its new parent.
  repoint : ℕ → ℕ → Act S (Unit {0})
  repoint ino parent s =
      let ((r, _), s) =
        e.dir_iterate2 (Unit {0}) ino (λ entry _ s. ((dotdot_helper parent entry, tt), s)) tt s in
      (r, s)

  -- The new parent gains the link of the "..", the old one loses it.
  gain_link : ℕ → S → S
  gain_link parent s = if_ok e (e.read_inode parent s) λ p s.
      (e.write_inode parent (record p { i_links_count = (p.i_links_count + 1) % 2 ^ 16 }) s).1

  lose_link : ℕ → S → S
  lose_link parent s =
      if_ok e (e.read_inode parent s)
        λ p s. if ltb 1 p.i_links_count then (e.write_inode parent (dec_links e p) s).1 else s

  -- The new name is linked before the old one goes.
  swap_names : (old_dir : ℕ) → Name → (new_dir : ℕ) → Name → ℕ → Op S (Unit {0})
  swap_names old_dir old_name new_dir new_name ino = do
    translated (e.link new_dir new_name ino ft_dir)
    translated (e.unlink old_dir old_name ino)

  pub rename_dir : (old_dir : ℕ) → Name → (new_dir : ℕ) → Name → ℕ → Op S (Unit {0})
  unfolding repoint gain_link lose_link swap_names
  rename_dir old_dir old_name new_dir new_name ino =
      let names = swap_names (u32 old_dir) old_name (u32 new_dir) new_name ino in
      if old_dir == new_dir
      then names
      else (names >> translated (repoint ino (u32 new_dir)) >> λ s.
          (done tt, lose_link (u32 old_dir) (gain_link (u32 new_dir) s)))

  -- The target of the rename is unlinked, if it can be looked up.
  remove_target : Bool → ℕ → Name → Reply (ℕ × Option Stat) × S → Reply (Unit {0}) × S
  remove_target live dir name (done (existing, _), s) = unlink e live dir name existing s
  remove_target live dir name (failed _, s) = (done tt, s)
  remove_target live dir name (hangs, s) = (hangs, s)

  pub rename_file : Bool → (old_dir : ℕ) → Name → (new_dir : ℕ) → Name → ℕ → Op S (Unit {0})
  unfolding remove_target
  rename_file live old_dir old_name new_dir new_name ino = do
    (λ s. remove_target live new_dir new_name (lookup e live new_dir new_name false s))
    translated (link_file e (u32 new_dir) new_name ino)
    translated (e.unlink (u32 old_dir) old_name ino)
    after_unlink e ino false 0

  pub rename : Bool → (old_dir : ℕ) → Name → (new_dir : ℕ) → Name → Op S (Unit {0})
  rename live old_dir old_name new_dir new_name = unless (not live) einval do
    (ino, _) ← lookup e live old_dir old_name false
    inode ← translated (e.read_inode (u32 ino))
    if is_dir inode
        then rename_dir old_dir old_name new_dir new_name (u32 ino)
        else rename_file live old_dir old_name new_dir new_name (u32 ino)

  -- A fast link keeps its target in the inode; any other is read as a file.
  unfoldable pub readlink : Bool → ℕ → ℕ → Op S Name
  readlink live ino buflen = unless (not live) einval do
    inode ← translated (e.read_inode (u32 ino))
    unless (not (file_type inode.i_mode == Mode.iflnk)) einval (
        if e.is_fast_symlink inode
        then return (take (buflen - 1) inode.i_block)
        else read e live ino 0 (buflen - 1))
