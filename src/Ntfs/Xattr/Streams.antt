-- ===== src/Ntfs/Xattr/Streams.antt =====
-- The extended attributes of the files of a volume as a table of byte strings by file and name,
-- and what the calls of libntfs-3g may do to it.
pub mod Reads
pub mod Stores
use usbrw.Base.{
  ℕ, suc, ◌≡◌, ◌<◌, refl, ◌∙◌, Bool, true, false, ◌&&◌, Option, none, some, List, [], ◌∷◌, ◌++◌,
  ◌==◌, take, length,
}
use usbrw.Base.Int.{ℤ, pos}
use usbrw.Ext.Engine.{Name}
use usbrw.Ext.Library.View.{same_name}
use usbrw.Ntfs.Data.{Opening, opened, cannot}
use usbrw.Ntfs.Xattr.{Engine}

abbrev pub Table : Type 0
Table = ℕ → Name → Option (List ℕ)

-- Another stream than that of a file with a name.
abbrev pub Elsewhere : ℕ → Name → ℕ → Name → Type 0
Elsewhere mft u m x = (m == mft && same_name x u) ≡ false

-- A table that differs from another at most in one stream.
abbrev pub Only : ℕ → Name → Table → Table → Type 0
Only mft u t t' = (m : ℕ) (x : Name) → Elsewhere mft u m x → t' m x ≡ t m x

-- Any call may fail, with any effect on the stream that it is given but none on the others.
pub record Streams {S : Type 0} (e : Engine S) (v : S → Table) : Type 0 where
  -- these change no stream
  pub open_inode : (n : ℕ) (s : S) → v (e.inodes.open_inode n s).1 ≡ v s
  pub close_inode : (n : ℕ) (s : S) → v (e.inodes.close_inode n s).1 ≡ v s
  pub open_stream : (n : ℕ) (u : Name) (s : S) → v (e.open_stream n u s).1 ≡ v s
  pub close_stream : (n : ℕ) (u : Name) (s : S) → v (e.close_stream n u s) ≡ v s
  pub pclose : (n : ℕ) (u : Name) (s : S) → v (e.pclose n u s).1 ≡ v s
  pub update_ctime : (n : ℕ) (s : S) → v (e.update_ctime n s) ≡ v s
  pub set_archive : (n : ℕ) (s : S) → v (e.set_archive n s) ≡ v s
  pub pread : (n : ℕ) (u : Name) (size : ℕ) (s : S) → v (e.pread n u size s).1 ≡ v s
  -- these change the stream that they are given
  pub truncate_only : (n : ℕ) (u : Name) (s : S) → Only n u (v s) (v (e.truncate n u s).1)
  pub add_only : (n : ℕ) (u : Name) (s : S) → Only n u (v s) (v (e.add_stream n u s).1)
  pub remove_only : (n : ℕ) (u : Name) (s : S) → Only n u (v s) (v (e.remove n u s).1)
  pub pwrite_only :
      (n : ℕ) (u : Name) (off : ℕ) (bytes : List ℕ) (s : S)
      → Only n u (v s) (v (e.pwrite n u off bytes s).1)
  -- what a success means
  pub open_missing :
      (n : ℕ) (u : Name) (s : S) → v s n u ≡ none → (e.open_stream n u s).0 ≡ opened tt → ⊥
  pub truncate_done :
      (n : ℕ) (u : Name) (s : S)
      → (e.truncate n u s).0 ≡ none
      → v (e.truncate n u s).1 n u ≡ some []
  pub add_done :
      (n : ℕ) (u : Name) (s : S)
      → (e.add_stream n u s).0 ≡ none
      → v (e.add_stream n u s).1 n u ≡ some []
  pub remove_done :
      (n : ℕ) (u : Name) (s : S) → (e.remove n u s).0 ≡ none → v (e.remove n u s).1 n u ≡ none
  -- a write that takes nothing sets errno
  pub pwrite_errno :
      (n : ℕ) (u : Name) (off b : ℕ) (bytes : List ℕ) (s : S)
      → (e.pwrite n u off (b ∷ bytes) s).0.1 ≡ 0
      → (k : ℕ) × ((e.pwrite n u off (b ∷ bytes) s).0.0 ≡ pos (suc k))
  -- a write behind the last byte appends as many bytes as it reports
  pub pwrite_done :
      (n : ℕ) (u : Name) (bytes old : List ℕ) (s : S) (k : ℕ)
      → v s n u ≡ some old
      → (e.pwrite n u (length old) bytes s).0.0 ≡ pos (suc k)
      → (k < length bytes)
        × (v (e.pwrite n u (length old) bytes s).1 n u ≡ some (old ++ take (suc k) bytes))
  pub stream_size :
      (n : ℕ) (u : Name) (bytes : List ℕ) (s : S)
      → v s n u ≡ some bytes
      → e.stream_size n u s ≡ length bytes
  -- a read that reports all bytes has read all bytes
  pub pread_done :
      (n : ℕ) (u : Name) (bytes : List ℕ) (s : S)
      → v s n u ≡ some bytes
      → (e.pread n u (length bytes) s).0.0 ≡ pos (length bytes)
      → take (length bytes) (e.pread n u (length bytes) s).0.2 ≡ bytes
