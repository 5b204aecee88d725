-- ===== src/Ntfs/Call.antt =====
-- ntfs_fskit.c, lines 232 to 257 and the ways in which its functions end: what the operations on
-- files share. An inode that was opened is closed in any case, and the first error counts.
pub mod Holds
pub mod Keeps
use usbrw.Base.{ℕ, zero, suc, Bool, Option, none, some, [], if◌then◌else◌}
use usbrw.Bridge.{einval}
use usbrw.Ext.Engine.{Name}
use usbrw.Ext.Reply.{Reply, done, failed, hangs, Op, and_then, refuse, unless, ◌>>=◌}
use usbrw.Ntfs.Data.{Opening, opened, cannot}

-- ni->mrec->flags and ni->flags of an inode, at the time when it is opened.
pub record Info : Type 0 where
  pub is_directory : Bool
  pub is_reparse : Bool
  pub is_system : Bool
  pub is_hidden : Bool

-- The calls of libntfs-3g on inodes and names, on the volume `S`; a number in `cannot` or `some`
-- is the errno value of a failure.
pub record Inodes (S : Type 0) : Type 0 where
  pub file_extend : ℕ
  pub first_user : ℕ
  pub mbstoucs : Name → Opening Name
  pub open_inode : ℕ → S → Opening Info × S
  pub close_inode : ℕ → S → Option ℕ × S
  -- MREF of what a name stands for
  pub lookup_by_name : (dir : ℕ) → Name → S → Opening ℕ × S

-- The name that was converted, if it was.
abbrev pub unicode : Opening Name → Name
unicode (opened uname) = uname
unicode (cannot errno) = []

abbrev pub uni : {S : Type 0} → Inodes S → Name → Name
uni i name = unicode (i.mbstoucs name)

module _ {S : Type 0} where
  -- if (...) res = -errno;
  abbrev pub succeed_or : {A : Type 0} → A → Option ℕ × S → Reply A × S
  succeed_or a (none, s) = (done a, s)
  succeed_or a (some errno, s) = (failed errno, s)

  -- res = -errno; goto out; where a call that did not do all may have left errno 0: then the
  -- operation ends with `a`, as a success.
  abbrev pub ended : {A : Type 0} → A → (errno : ℕ) → S → Reply A × S
  ended a zero s = (done a, s)
  ended a (suc n) s = (failed (suc n), s)

  abbrev pub obtained : {A : Type 0} → Opening A × S → Reply A × S
  obtained (opened a, s) = (done a, s)
  obtained (cannot errno, s) = (failed errno, s)

  -- if (ntfs_inode_close(ni) && !res) res = -errno;
  abbrev pub after_close : {A : Type 0} → (S → Option ℕ × S) → Reply A × S → Reply A × S
  after_close close (done a, s) = succeed_or a (close s)
  after_close close (failed errno, s) = (failed errno, (close s).1)
  after_close close (hangs, s) = (hangs, s)

  abbrev pub closing : {A : Type 0} → (S → Option ℕ × S) → Op S A → Op S A
  closing close op s = after_close close (op s)

  -- What is done in any case, and whose failure is passed over.
  abbrev pub afterwards : {A : Type 0} → (S → S) → Reply A × S → Reply A × S
  afterwards clean (r, s) = (r, clean s)

  abbrev pub always : {A : Type 0} → (S → S) → Op S A → Op S A
  always clean op s = afterwards clean (op s)

  -- if (!v || !v->vol || ...) return -EINVAL;
  abbrev pub needing : {A : Type 0} → Bool → Op S A → Op S A
  needing usable op = if usable then op else refuse einval

module _ {S : Type 0} (e : Inodes S) where
  abbrev pub shut : ℕ → S → S
  shut mft s = (e.close_inode mft s).1

  abbrev pub lookup_named : ℕ → Opening Name → S → Opening ℕ × S
  lookup_named dir (opened uname) s = e.lookup_by_name dir uname s
  lookup_named dir (cannot errno) s = (cannot errno, s)

  abbrev pub lookup_mft : ℕ → Name → S → Opening ℕ × S
  lookup_mft dir name = lookup_named dir (e.mbstoucs name)

  abbrev pub convert : Name → Op S Name
  convert name s = obtained (e.mbstoucs name, s)

  abbrev pub iget : ℕ → Op S Info
  iget mft s = obtained (e.open_inode mft s)

  -- The inode of a file is opened, used and closed.
  abbrev pub with_inode : {A : Type 0} → ℕ → (Info → Op S A) → Op S A
  with_inode mft body = iget mft >>= λ info. closing (e.close_inode mft) (body info)

  -- The number that a name stands for; a directory that cannot be opened or closed is an error.
  abbrev pub find : (dir : ℕ) → Name → Op S (Opening ℕ)
  find dir name = with_inode dir λ _ s. let (found, s) = lookup_mft dir name s in (done found, s)
