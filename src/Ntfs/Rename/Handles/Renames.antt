-- ===== src/Ntfs/Rename/Handles/Renames.antt =====
-- The inodes that a rename holds open, whichever calls of the library fail.
use usbrw.Base.{ℕ}
use usbrw.Ext.Reply.{Reply}
use usbrw.Ntfs.Call.{Inodes}
use usbrw.Ntfs.Call.Holds.{Holds}
use usbrw.Ntfs.Rename.{Engine}
use usbrw.Ntfs.Rename.Handles.{Handles}

module _ {S : Type 0} {e : Engine S} {held : S → ℕ → ℕ} (law : Handles e held) where
  abbrev i : Inodes S
  i = e.inodes
