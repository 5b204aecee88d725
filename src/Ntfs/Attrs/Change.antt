-- ===== src/Ntfs/Attrs/Change.antt =====
-- ntfs_fskit.c, lines 309 to 389 and 1065 to 1073: changing the attributes of a file.
pub mod Applied
pub mod Laws
pub mod Stages
use usbrw.Base.{
  ℕ, zero, suc, ◌-◌, Bool, true, false, not, ◌&&◌, ◌||◌, Option, none, some, ltb, leb, ◌==◌,
  if◌then◌else◌,
}
use usbrw.Base.Int.{ℤ, pos, negsuc}
use usbrw.Bridge.{Stat, blank_stat, eperm, enoent, eopnotsupp}
use usbrw.Ext.Reply.{Reply, done, failed, hangs, Op, return, ◌>>=◌, ◌>>◌, unless}
use usbrw.Ntfs.Attrs.{Engine, DataAttr, has, uf_hidden, with_hidden}
use usbrw.Ntfs.Call.{Info, Inodes, succeed_or, ended, obtained, always, with_inode, needing}
use usbrw.Ntfs.Data.{Opening, opened, cannot}

module _ {S : Type 0} (e : Engine S) (mft : ℕ) where
  abbrev i : Inodes S
  i = e.inodes

  -- if (ntfs_attr_pwrite(...) <= 0) { res = -errno; goto out; }
  -- The operation goes on if the byte was written; else it ends, as a success if errno is 0.
  abbrev pub some_written : (ℤ × ℕ) × S → Reply Bool × S
  some_written ((pos zero, errno), s) = ended false errno s
  some_written ((negsuc n, errno), s) = ended false errno s
  some_written ((pos (suc k), errno), s) = (done true, s)

  abbrev pub open_attr : Op S DataAttr
  open_attr s = obtained (e.open_data mft s)

  -- A compressed file grows by a zero byte at its new end.
  abbrev pub resize_attr : DataAttr → (size : ℕ) → Op S Bool
  resize_attr attr size s =
      if attr.is_compressed && ltb attr.initialized_size size
      then some_written (e.put_zero mft (size - 1) s)
      else succeed_or true (e.truncate mft size s)

  abbrev pub archive_if : Bool → S → S
  archive_if true s = e.set_archive mft s
  archive_if false s = s

  abbrev pub note_size : (old new : ℕ) → (on : Bool) → Op S Bool
  note_size old new true s = (done true, e.update_mctime mft (archive_if (not (old == new)) s))
  note_size old new false s = (done false, s)

  -- Whether the operation goes on.
  pub resize : Info → (size : ℕ) → Op S Bool
  resize info size = unless (ltb mft i.first_user) eperm (
      unless info.is_reparse eopnotsupp (
        open_attr >>= λ attr.
        always (e.close_data mft) (resize_attr attr size) >>= note_size attr.data_size size))

  -- A step that is taken if its bit is set.
  abbrev pub only_if : Bool → Op S (Unit {0}) → Op S (Unit {0})
  only_if true op = op
  only_if false op = return tt

  abbrev pub resize_if : Bool → Info → (size : ℕ) → Op S Bool
  resize_if true info size = resize info size
  resize_if false info size = return true

  abbrev pub going_on : Bool → Op S (Unit {0}) → Op S (Unit {0})
  going_on true op = op
  going_on false op = return tt

  abbrev pub put_if : Bool → (S → S) → S → S
  put_if true f s = f s
  put_if false f s = s

  pub put_times : Stat → (which : ℕ) → Op S (Unit {0})
  put_times st which s =
      let s = put_if (has 16 which) (e.set_data_change_time mft (e.ntfs_time st.mtime)) s in
      let s = put_if (has 64 which) (e.set_access_time mft (e.ntfs_time st.atime)) s in
      let s = put_if (has 128 which) (e.set_creation_time mft (e.ntfs_time st.btime)) s in
      (done tt, e.update_ctime mft s)

  pub put_flags : Stat → Op S (Unit {0})
  unfolding with_hidden
  put_flags st s =
      succeed_or tt (e.set_ntfs_attrib mft (with_hidden (has uf_hidden st.flags) (e.flags mft s)) s)

  -- The bits of `which`: 8 for the size, 16, 64 and 128 for the times, 32 for the flags.
  pub setattr : (usable : Bool) → Stat → (which : ℕ) → Op S (Unit {0})
  unfolding resize put_times put_flags
  setattr usable st which = needing usable (
      unless (leb mft 1) enoent (
        with_inode i mft λ info. resize_if (has 8 which) info st.size >>= λ on. going_on on (
          only_if (has 16 which || has 64 which || has 128 which) (put_times st which)
          >> only_if (has 32 which) (put_flags st))))

  unfoldable pub truncate : (usable : Bool) → (newsize : ℕ) → Op S (Unit {0})
  unfolding setattr
  truncate usable newsize = setattr usable (record blank_stat { size = newsize }) 8
