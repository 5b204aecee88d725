-- ===== src/Ntfs/Xattr/Streams/Stores.antt =====
-- Setting, reading and removing an extended attribute, whichever calls of the library fail.
use usbrw.Base.{ℕ, ◌≡◌, Bool, true, none, some, List}
use usbrw.Ext.Engine.{Name}
use usbrw.Ext.Reply.{Reply}
use usbrw.Ntfs.Call.{Inodes, uni}
use usbrw.Ntfs.Call.Holds.{Holds}
use usbrw.Ntfs.Xattr.{Engine}
use usbrw.Ntfs.Xattr.Streams.{Table, Streams, Only}

module _ {S : Type 0} {e : Engine S} {v : S → Table} (law : Streams e v) (mft : ℕ) where
  abbrev i : Inodes S
  i = e.inodes

  module _ (u : Name) (t0 : Table) where
    -- No other stream has changed.
    abbrev Kept : S → Type 0
    Kept s = Only mft u t0 (v s)

    abbrev Stored : List ℕ → S → Type 0
    Stored bytes s = Kept s × (v s mft u ≡ some bytes)

    abbrev Whole : List ℕ → Bool → S → Type 0
    Whole bytes whole s = (whole ≡ true) × Stored bytes s

    abbrev Removed : Unit {0} → S → Type 0
    Removed _ s = Kept s × (v s mft u ≡ none)

  module _ (name : Name) (s : S) where
    abbrev u : Name
    u = uni e.inodes name

    abbrev Others : S → Type 0
    Others = Kept u (v s)
