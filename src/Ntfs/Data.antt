-- ===== src/Ntfs/Data.antt =====
-- ntfs_fskit.c, lines 959 to 1063: reading and writing the data of a file, in as many pieces as
-- libntfs-3g takes. Offsets and lengths are below 2 ^ 63, where the casts to s64 change nothing.
pub mod Refines
mod Tests
use usbrw.Base.{
  ℕ, zero, suc, ◌+◌, ◌-◌, Bool, true, false, not, ◌&&◌, Option, none, some, List, [], ◌∷◌, ◌++◌,
  ltb, ◌==◌, if◌then◌else◌, take, drop, length,
}
use usbrw.Base.Int.{ℤ, pos, negsuc}
use usbrw.Bridge.{einval, eio, eperm, eopnotsupp}
use usbrw.Ext.Reply.{Reply, done, failed, hangs, Op}

-- A call that opens something, or fails with errno set.
pub data Opening (A : Type 0) : Type 0 where
  opened : A → Opening A
  cannot : (errno : ℕ) → Opening A

-- The calls of libntfs-3g, on the volume `S`. An inode tells whether it is a reparse point; a
-- transfer returns a count, which is negative if errno is set.
pub record Engine (S : Type 0) : Type 0 where
  -- FILE_first_user: the number of the first file that is no metadata
  pub first_user : ℕ
  pub open_inode : ℕ → S → Opening Bool × S
  pub open_data : ℕ → S → Opening (Unit {0}) × S
  pub data_size : ℕ → S → ℕ
  pub pread : ℕ → (off size : ℕ) → S → (ℤ × ℕ × List ℕ) × S
  pub pwrite : ℕ → (off : ℕ) → List ℕ → S → (ℤ × ℕ) × S
  pub update_atime : ℕ → S → S
  pub set_archive_and_times : ℕ → S → S
  pub close_data : ℕ → S → S
  -- the errno value, if it fails
  pub close_inode : ℕ → S → Option ℕ × S

-- How a loop of writes ends: with everything written, or early, with errno set.
pub data Written : Type 0 where
  all : (total : ℕ) → Written
  early : (total errno : ℕ) → Written

module _ {S : Type 0} (e : Engine S) (mft : ℕ) where
  -- A piece counts if it is not empty and no longer than asked for.
  abbrev pub read_piece :
      (size : ℕ) → (ℤ × ℕ × List ℕ) × S → (ℕ → List ℕ → S → Reply (List ℕ) × S) → Reply (List ℕ) × S
  read_piece size ((pos zero, errno, bytes), s) rest = (failed eio, s)
  read_piece size ((negsuc n, errno, bytes), s) rest = (failed errno, s)
  read_piece size ((pos (suc k), errno, bytes), s) rest =
      if ltb size (suc k) then (failed eio, s) else rest (suc k) (take (suc k) bytes) s

  -- The bytes of a piece, before those of the others.
  abbrev pub prepend : List ℕ → Reply (List ℕ) × S → Reply (List ℕ) × S
  prepend bytes (done rest, s) = (done (bytes ++ rest), s)
  prepend bytes (failed errno, s) = (failed errno, s)
  prepend bytes (hangs, s) = (hangs, s)

  -- Each round takes a byte at least, so `size` rounds are enough.
  pub read_loop : (fuel off size : ℕ) → S → Reply (List ℕ) × S
  read_loop fuel off zero s = (done [], s)
  read_loop zero off (suc size) s = (hangs, s)
  read_loop (suc fuel) off (suc size) s =
      read_piece (suc size) (e.pread mft off (suc size) s)
        λ k bytes s. prepend bytes (read_loop fuel (off + k) (suc size - k) s)

  -- if (b) ntfs_inode_update_times(ni, NTFS_UPDATE_ATIME);
  abbrev pub stamp_read : Bool → S → S
  stamp_read true s = e.update_atime mft s
  stamp_read false s = s

  abbrev pub stamp_written : Bool → S → S
  stamp_written true s = e.set_archive_and_times mft s
  stamp_written false s = s

  -- if (ntfs_inode_close(ni) && !total) return -errno;
  abbrev pub settle : {A : Type 0} → (transferred : Bool) → A → Option ℕ × S → Reply A × S
  settle transferred result (none, s) = (done result, s)
  settle transferred result (some errno, s) =
      if transferred then (done result, s) else (failed errno, s)

  -- The file is closed, whatever came of the loop.
  abbrev pub end_read : (noatime : Bool) → Reply (List ℕ) × S → Reply (List ℕ) × S
  end_read noatime (done bytes, s) =
      let transferred = not (length bytes == 0) in
      settle transferred bytes
        (e.close_inode mft (e.close_data mft (stamp_read (transferred && not noatime) s)))
  end_read noatime (failed errno, s) = (failed errno, (e.close_inode mft (e.close_data mft s)).1)
  end_read noatime (hangs, s) = (hangs, s)

  pub read_data : (noatime : Bool) → (offset len : ℕ) → S → Reply (List ℕ) × S
  unfolding read_loop
  read_data noatime offset len s =
      let max_read = e.data_size mft s in
      let size = if ltb max_read (offset + len) then max_read - offset else len in
      end_read noatime (if ltb offset max_read then read_loop size offset size s else (done [], s))

  abbrev pub with_attr : {A : Type 0} → Opening (Unit {0}) × S → Op S A → Reply A × S
  with_attr (cannot errno, s) body = (failed errno, (e.close_inode mft s).1)
  with_attr (opened _, s) body = body s

  -- A file that is no reparse point is opened, or the call fails.
  abbrev pub with_data : {A : Type 0} → Opening Bool × S → Op S A → Reply A × S
  with_data (cannot errno, s) body = (failed errno, s)
  with_data (opened true, s) body = (failed eopnotsupp, (e.close_inode mft s).1)
  with_data (opened false, s) body = with_attr (e.open_data mft s) body

  -- `usable`: the volume is there, and the buffer if something is to be read.
  pub read : (usable noatime : Bool) → (offset len : ℕ) → Op S (List ℕ)
  unfolding read_data
  read usable noatime offset len s =
      if not usable
      then (failed einval, s)
      else if len == 0
      then (done [], s)
      else with_data (e.open_inode mft s) (read_data noatime offset len)

  abbrev pub write_piece :
      (total : ℕ) → (ℤ × ℕ) × S → (ℕ → S → Option Written × S) → Option Written × S
  write_piece total ((pos zero, errno), s) rest = (some (early total errno), s)
  write_piece total ((negsuc n, errno), s) rest = (some (early total errno), s)
  write_piece total ((pos (suc k), errno), s) rest = rest (suc k) s

  -- `none` is a loop whose rounds ran out.
  pub write_loop : (fuel off total : ℕ) → List ℕ → S → Option Written × S
  write_loop fuel off total [] s = (some (all total), s)
  write_loop zero off total (b ∷ bytes) s = (none, s)
  write_loop (suc fuel) off total (b ∷ bytes) s =
      write_piece total (e.pwrite mft off (b ∷ bytes) s)
        λ k s. write_loop fuel (off + k) (total + k) (drop k (b ∷ bytes)) s

  -- What was written before an error counts.
  abbrev pub end_write : Option Written × S → Reply ℕ × S
  end_write (none, s) = (hangs, s)
  end_write (some (early total errno), s) =
      let s = (e.close_inode mft (e.close_data mft s)).1 in
      if ltb 0 total then (done total, s) else (failed errno, s)
  end_write (some (all total), s) =
      settle (ltb 0 total) total
        (e.close_inode mft (stamp_written (ltb 0 total) (e.close_data mft s)))

  -- The metadata files are not written to.
  abbrev pub write_opened : (offset : ℕ) → List ℕ → Opening Bool × S → Reply ℕ × S
  write_opened offset bytes (cannot errno, s) = (failed errno, s)
  write_opened offset bytes (opened reparse, s) =
      if ltb mft e.first_user
      then (failed eperm, (e.close_inode mft s).1)
      else with_data (opened reparse, s) λ s. end_write (write_loop (length bytes) offset 0 bytes s)

  pub write : (usable : Bool) → (offset : ℕ) → List ℕ → Op S ℕ
  unfolding write_loop
  write usable offset bytes s =
      if not usable
      then (failed einval, s)
      else if length bytes == 0
      then (done 0, s)
      else write_opened offset bytes (e.open_inode mft s)
