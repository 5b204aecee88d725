-- ===== src/Ntfs/Rename.antt =====
-- ntfs_fskit.c, lines 659 to 830: unlinking, linking and renaming. A rename links the new name
-- before the old one goes; one over another file first gives that file a temporary name.
pub mod Handles
pub mod Safety
mod Tests
use usbrw.Base.{
  ℕ, zero, suc, ◌+◌, ◌/◌, ◌%◌, Bool, true, false, not, ◌&&◌, ◌||◌, Option, none, some, List, [],
  ◌∷◌, ◌++◌, ltb, leb, ◌==◌, if◌then◌else◌, length,
}
use usbrw.Bridge.{einval, eperm, enoent, enametoolong, eopnotsupp}
use usbrw.Ext.Engine.{Name}
use usbrw.Ext.Reply.{Reply, done, failed, hangs, Op, return, refuse, ◌>>=◌, ◌>>◌, unless, cleaning}
use usbrw.Ntfs.Call.{
  Inodes, obtained, succeed_or, closing, always, shut, lookup_mft, convert, iget, with_inode,
  needing, find,
}
use usbrw.Ntfs.Data.{Opening, opened, cannot}

-- The calls of libntfs-3g on links; an optional number is the errno value of a failure.
pub record Engine (S : Type 0) : Type 0 where
  pub inodes : Inodes S
  pub malloc_errno : Option ℕ
  -- closes both inodes, whatever comes of it
  pub delete : (ino dir : ℕ) → Name → S → Option ℕ × S
  pub link : (ino dir : ℕ) → Name → S → Option ℕ × S
  pub set_archive_and_times : (ino dir : ℕ) → S → S
  pub check_empty_dir : ℕ → S → Option ℕ × S

-- What a rename comes to, once both names were looked up.
pub data Plan : Type 0 where
  to_free_name : (ino : ℕ) → Plan
  to_itself : Plan
  over : (ino xino : ℕ) → Plan

-- "%0kd": the last k decimal digits.
pub digits : ℕ → ℕ → List ℕ
digits zero n = []
digits (suc k) n = digits k (n / 10) ++ ((b'0' + n % 10) ∷ [])

-- "%s.ntfs-3g-%010d"
pub tmp_name : Name → ℕ → Name
unfolding digits
tmp_name name seq =
    name ++ ((b'.' ∷ b'n' ∷ b't' ∷ b'f' ∷ b's' ∷ b'-' ∷ b'3' ∷ b'g' ∷ b'-' ∷ []) ++ digits 10 seq)

abbrev pub first_error : List (Option ℕ) → Option ℕ
first_error [] = none
first_error (none ∷ rest) = first_error rest
first_error (some errno ∷ rest) = some errno

module _ {S : Type 0} (e : Engine S) where
  abbrev i : Inodes S
  i = e.inodes

  abbrev pub located : (dir : ℕ) → Name → Op S ℕ
  located dir name s = obtained (lookup_mft i dir name s)

  abbrev pub delete_file : (ino dir : ℕ) → Name → Op S (Unit {0})
  delete_file ino dir uname s = succeed_or tt (e.delete ino dir uname s)

  abbrev pub link_file : (ino dir : ℕ) → Name → Op S (Unit {0})
  link_file ino dir uname s = succeed_or tt (e.link ino dir uname s)

  abbrev pub mark : (ino dir : ℕ) → Op S (Unit {0})
  mark ino dir s = (done tt, e.set_archive_and_times ino dir s)

  -- The file behind a name, if it may be deleted; both inodes are open then.
  pub deletable : (dir : ℕ) → Name → Op S ℕ
  deletable dir name = do
    info ← iget i dir
    ino ← cleaning (shut i dir) (
        located dir name >>= λ ino.
        unless (ltb ino i.first_user) eperm (iget i ino >>= λ _. return ino))
    cleaning (λ s. shut i dir (shut i ino s)) (unless info.is_reparse eopnotsupp (return ino))

  pub do_unlink : (dir : ℕ) → Name → Op S (Unit {0})
  unfolding deletable
  do_unlink dir name = do
    uname ← convert i name
    ino ← deletable dir name
    delete_file ino dir uname

  -- The link itself, and its marks.
  abbrev pub link_into : (ino dir : ℕ) → Name → Op S (Unit {0})
  link_into ino dir uname = link_file ino dir uname >> mark ino dir

  pub do_link : (ino dir : ℕ) → Name → (allow_dir : Bool) → Op S (Unit {0})
  do_link ino dir name allow_dir = with_inode i ino λ info.
      unless (not allow_dir && info.is_directory) eperm (
        convert i name >>= λ uname. unless (ltb 255 (length uname)) enametoolong (
          with_inode i dir
            λ dir_info. unless dir_info.is_reparse eopnotsupp (link_into ino dir uname)))

  pub unlink : (usable : Bool) → (dir : ℕ) → Name → Op S (Unit {0})
  unfolding do_unlink
  unlink usable dir name = needing usable (unless (dir == i.file_extend) eperm (do_unlink dir name))

  pub link : (usable : Bool) → (ino new_dir : ℕ) → Name → Op S (Unit {0})
  unfolding do_link
  link usable ino new_dir new_name =
      needing usable (unless (ltb ino i.first_user) eperm (do_link ino new_dir new_name false))

  abbrev pub source : Opening ℕ → Op S ℕ
  source (cannot errno) = refuse enoent
  source (opened ino) = unless (leb ino 1) enoent (unless (ltb ino i.first_user) eperm (return ino))

  -- The target's inode is looked at, and memory for the temporary name is had.
  abbrev pub against : (ino : ℕ) → Opening ℕ → Op S Plan
  against ino (cannot errno) = return (to_free_name ino)
  against ino (opened xino) =
      if xino == ino
      then return to_itself
      else iget i xino >>= λ _ s.
          let (empty, s) = e.check_empty_dir xino s in
          let (closed, s) = i.close_inode xino s in
          succeed_or (over ino xino) (first_error (closed ∷ empty ∷ e.malloc_errno ∷ []), s)

  -- Both names are looked up.
  pub plan : (usable : Bool) → (old_dir : ℕ) → Name → (new_dir : ℕ) → Name → Op S Plan
  plan usable old_dir old_name new_dir new_name = needing usable (
      unless (old_dir == i.file_extend || new_dir == i.file_extend) eperm (do
        found ← find i old_dir old_name
        ino ← source found
        target ← find i new_dir new_name
        against ino target))

  -- The new name is linked, then the old one goes; if it does not, the new one goes again.
  pub move : (old_dir : ℕ) → Name → (new_dir : ℕ) → Name → (ino : ℕ) → Op S (Unit {0})
  move old_dir old_name new_dir new_name ino =
      do_link ino new_dir new_name true
      >> cleaning (λ s. (do_unlink new_dir new_name s).1) (do_unlink old_dir old_name)

  -- The target keeps a temporary name until the move is done; it is linked again if that failed.
  pub replace :
      (old_dir : ℕ) → Name → (new_dir : ℕ) → Name → (tmp : Name) → (ino xino : ℕ) → Op S (Unit {0})
  unfolding move
  replace old_dir old_name new_dir new_name tmp ino xino =
      do_link xino new_dir tmp true
      >> always (λ s. (do_unlink new_dir tmp s).1)
          (do_unlink new_dir new_name
            >> cleaning (λ s. (do_link xino new_dir new_name true s).1)
                (move old_dir old_name new_dir new_name ino))

  -- The counter of temporary names is in the second component.
  pub execute :
      (old_dir : ℕ)
      → Name
      → (new_dir : ℕ) → Name
      → (seq : ℕ) → Reply Plan × S
      → (Reply (Unit {0}) × S) × ℕ
  unfolding replace tmp_name
  execute old_dir old_name new_dir new_name seq (failed errno, s) = ((failed errno, s), seq)
  execute old_dir old_name new_dir new_name seq (hangs, s) = ((hangs, s), seq)
  execute old_dir old_name new_dir new_name seq (done (to_free_name ino), s) =
      (move old_dir old_name new_dir new_name ino s, seq)
  execute old_dir old_name new_dir new_name seq (done to_itself, s) = ((done tt, s), seq)
  execute old_dir old_name new_dir new_name seq (done (over ino xino), s) =
      (replace old_dir old_name new_dir new_name (tmp_name new_name (seq + 1)) ino xino s, seq + 1)

  pub rename :
      (usable : Bool)
      → (old_dir : ℕ) → Name
      → (new_dir : ℕ) → Name
      → (seq : ℕ) → S
      → (Reply (Unit {0}) × S) × ℕ
  unfolding plan execute
  rename usable old_dir old_name new_dir new_name seq s =
      execute old_dir old_name new_dir new_name seq
        (plan usable old_dir old_name new_dir new_name s)
