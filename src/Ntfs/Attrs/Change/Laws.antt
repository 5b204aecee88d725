-- ===== src/Ntfs/Attrs/Change/Laws.antt =====
-- The attributes of files that `nfsk_setattr` is about, and what the calls of libntfs-3g do to them.
use usbrw.Base.{ℕ, suc, ◌+◌, ◌≡◌, Bool, false, none, ltb, ◌==◌, if◌then◌else◌}
use usbrw.Base.Int.{pos}
use usbrw.Ntfs.Attrs.{Engine, DataAttr, has}
use usbrw.Ntfs.Data.{opened}

-- Times are those of NTFS.
pub record View : Type 0 where
  pub size : ℕ
  pub mtime : ℕ
  pub atime : ℕ
  pub btime : ℕ
  pub is_hidden : Bool
  pub is_compressed : Bool

abbrev pub max : ℕ → ℕ → ℕ
max a b = if ltb a b then b else a

-- The same but for the file that a call is given.
abbrev pub Others : ℕ → (ℕ → View) → (ℕ → View) → Type 0
Others mft t t' = (m : ℕ) → (m == mft) ≡ false → t' m ≡ t m

abbrev pub at_mtime : ℕ → View → View
at_mtime t w = record w { mtime = t }

abbrev pub at_atime : ℕ → View → View
at_atime t w = record w { atime = t }

abbrev pub at_btime : ℕ → View → View
at_btime t w = record w { btime = t }

module _ {S : Type 0} (e : Engine S) (v : S → ℕ → View) where
  -- A call that changes one file by a function of its attributes.
  abbrev pub Sets : (ℕ → S → S) → (View → View) → Type 0
  Sets call change =
      (n : ℕ) (s : S) → Others n (v s) (v (call n s)) × (v (call n s) n ≡ change (v s n))

  -- Any call may fail; one that fails may have changed the file that it is given.
  pub record Attributes : Type 0 where
    pub open_inode : (n : ℕ) (s : S) → v (e.inodes.open_inode n s).1 ≡ v s
    pub close_inode : (n : ℕ) (s : S) → v (e.inodes.close_inode n s).1 ≡ v s
    pub open_data : (n : ℕ) (s : S) → v (e.open_data n s).1 ≡ v s
    pub opened_data :
        (n : ℕ) (s : S) (attr : DataAttr)
        → (e.open_data n s).0 ≡ opened attr
        → attr.is_compressed ≡ (v s n).is_compressed
    pub close_data : (n : ℕ) (s : S) → v (e.close_data n s) ≡ v s
    pub set_archive : (n : ℕ) (s : S) → v (e.set_archive n s) ≡ v s
    pub update_ctime : (n : ℕ) (s : S) → v (e.update_ctime n s) ≡ v s
    -- the clock, which is taken to stand still while a call runs
    pub now : ℕ
    pub update_mctime :
        (n : ℕ) (s : S)
        → Others n (v s) (v (e.update_mctime n s))
          × (v (e.update_mctime n s) n ≡ record (v s n) { mtime = now })
    pub set_data_change_time : (t : ℕ) → Sets (λ n. e.set_data_change_time n t) (at_mtime t)
    pub set_access_time : (t : ℕ) → Sets (λ n. e.set_access_time n t) (at_atime t)
    pub set_creation_time : (t : ℕ) → Sets (λ n. e.set_creation_time n t) (at_btime t)
    pub truncate_others : (n size : ℕ) (s : S) → Others n (v s) (v (e.truncate n size s).1)
    pub truncate_done :
        (n size : ℕ) (s : S)
        → (e.truncate n size s).0 ≡ none
        → v (e.truncate n size s).1 n ≡ record (v s n) { size = size }
    pub put_zero_others : (n off : ℕ) (s : S) → Others n (v s) (v (e.put_zero n off s).1)
    -- a write that takes nothing sets errno
    pub put_zero_errno :
        (n off : ℕ) (s : S)
        → (e.put_zero n off s).0.1 ≡ 0
        → (k : ℕ) × ((e.put_zero n off s).0.0 ≡ pos (suc k))
    -- a byte behind the end makes the file longer
    pub put_zero_done :
        (n off : ℕ) (s : S) (k : ℕ)
        → (e.put_zero n off s).0.0 ≡ pos (suc k)
        → v (e.put_zero n off s).1 n ≡ record (v s n) { size = max (v s n).size (off + 1) }
    pub attrib_others : (n a : ℕ) (s : S) → Others n (v s) (v (e.set_ntfs_attrib n a s).1)
    pub attrib_done :
        (n a : ℕ) (s : S)
        → (e.set_ntfs_attrib n a s).0 ≡ none
        → v (e.set_ntfs_attrib n a s).1 n ≡ record (v s n) { is_hidden = has 2 a }
