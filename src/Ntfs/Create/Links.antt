-- ===== src/Ntfs/Create/Links.antt =====
-- A symbolic link that is made and then read, whichever calls of the library fail.
use usbrw.Base.{ℕ, ◌-◌, ◌≡◌, true, false, Option, none, some, List, take}
use usbrw.Ext.Engine.{Name}
use usbrw.Ntfs.Attrs.{Intx, symbolic_link}
use usbrw.Ntfs.Call.{Info, Inodes}
use usbrw.Ntfs.Call.Holds.{Holds}
use usbrw.Ntfs.Create.{Engine, readlink}
use usbrw.Base.Int.{pos}
use usbrw.Ntfs.Data.{opened}

-- Which files are links in the format of Interix, with the target in UTF-16. Any call may fail;
-- only making a link changes what is one.
pub record Links {S : Type 0} (e : Engine S) (v : S → ℕ → Option Name) : Type 0 where
  pub open_inode : (n : ℕ) (s : S) → v (e.attrs.inodes.open_inode n s).1 ≡ v s
  pub close_inode : (n : ℕ) (s : S) → v (e.attrs.inodes.close_inode n s).1 ≡ v s
  pub mark_new : (n : ℕ) (s : S) → v (e.mark_new n s) ≡ v s
  pub close_in_dir : (n dir : ℕ) (s : S) → v (e.close_in_dir n dir s).1 ≡ v s
  pub update_mctime : (n : ℕ) (s : S) → v (e.update_mctime n s) ≡ v s
  pub open_data : (n : ℕ) (s : S) → v (e.attrs.open_data n s).1 ≡ v s
  pub made :
      (dir : ℕ) (u target : Name) (s : S) (n : ℕ)
      → (e.create_symlink dir u target s).0 ≡ opened n
      → v (e.create_symlink dir u target s).1 n ≡ some target
  -- a link is a system file and no reparse point, and its data begins with the magic number
  pub opened_link :
      (n : ℕ) (s : S) (info : Info) (target : Name)
      → v s n ≡ some target
      → (e.attrs.inodes.open_inode n s).0 ≡ opened info
      → (info.is_reparse ≡ false) × (info.is_system ≡ true)
  pub read_link :
      (n size : ℕ) (s : S) (intx : Intx) (target : Name)
      → v s n ≡ some target
      → (e.attrs.pread_intx n size s).0.0 ≡ pos size
      → (e.attrs.pread_intx n size s).0.2 ≡ intx
      → (intx.magic ≡ symbolic_link) × (intx.target ≡ target)
  -- a read that does not give all bytes sets errno
  pub read_errno :
      (n size : ℕ) (s : S)
      → (e.attrs.pread_intx n size s).0.1 ≡ 0
      → (e.attrs.pread_intx n size s).0.0 ≡ pos size
  -- a text that is converted and back is as it was
  pub round_trip :
      (text u back : Name)
      → e.attrs.inodes.mbstoucs text ≡ opened u
      → e.attrs.ucstombs u ≡ opened back
      → back ≡ text

module _ {S : Type 0} {e : Engine S} {v : S → ℕ → Option Name} (law : Links e v) where
  abbrev i : Inodes S
  i = e.attrs.inodes

  abbrev Free : S → Type 0
  Free _ = Unit

  -- The files that are links to a target.
  module _ (target : Name) (utarget : Name) (converted : i.mbstoucs target ≡ opened utarget) where
    abbrev IsLink : ℕ → S → Type 0
    IsLink n s = v s n ≡ some utarget

    module _ (n buflen : ℕ) where
      abbrev Right : Option (List ℕ) → S → Type 0
      Right text _ = text ≡ some (take (buflen - 1) target)

      -- The data of the link.
      abbrev IsRead : Option Intx → S → Type 0
      IsRead none _ = ⊥
      IsRead (some intx) _ = (intx.magic ≡ symbolic_link) × (intx.target ≡ utarget)

      -- The inode of a link is opened.
      abbrev Open : Info → S → Type 0
      Open info s = IsLink n s × (info.is_reparse ≡ false) × (info.is_system ≡ true)

  -- What reading the link gives.
  abbrev pub Reads : (target : List ℕ) (buflen n : ℕ) → S → Type 0
  Reads target buflen n s =
      Holds (λ text _. text ≡ some (take (buflen - 1) target)) (λ _. Unit)
        (readlink e n buflen true s)
