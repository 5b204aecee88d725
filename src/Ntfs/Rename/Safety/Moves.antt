-- ===== src/Ntfs/Rename/Safety/Moves.antt =====
-- What a rename leaves, whichever calls of the library fail.
use usbrw.Base.{ℕ, ◌≡◌, false, ◌&&◌, Option, some, ◌==◌}
use usbrw.Ext.Engine.{Name}
use usbrw.Ext.Library.View.{same_name}
use usbrw.Ext.Reply.{Reply, done, failed, hangs}
use usbrw.Ntfs.Call.{Inodes, uni}
use usbrw.Ntfs.Rename.{Engine}
use usbrw.Ntfs.Call.Holds.{Holds}
use usbrw.Ntfs.Rename.Safety.{Names, Left}

module _ {S : Type 0} (e : Engine S) where
  abbrev i : Inodes S
  i = e.inodes

-- Two names in directories that are not one name.
abbrev pub Differ : ℕ → Name → ℕ → Name → Type 0
Differ d x dir u = (d == dir && same_name x u) ≡ false

module _ {S : Type 0} {e : Engine S} {names : S → ℕ → Name → Option ℕ} (law : Names e names) where
  -- The file has its new name after a success; after a failure it has its old name, unless a deletion
  -- of that failed and took it away.
  abbrev pub HasName :
      {A : Type 0} (old_dir : ℕ) (old : Name) (new_dir : ℕ) (new : Name) (ino : ℕ)
      → Reply A × S
      → Type 0
  HasName old_dir old new_dir new ino (done _, s) = names s new_dir new ≡ some ino
  HasName old_dir old new_dir new ino (failed _, s) = Left law old_dir ino old s
  HasName old_dir old new_dir new ino (hangs, s) = ⊥

  module _ (d : ℕ) (x : Name) where
    abbrev part : (ℕ → Name → Option ℕ) → Option ℕ
    part t = t d x

  module _ (old_dir : ℕ) (old : Name) (new_dir : ℕ) (new : Name) (ino : ℕ)
      (apart : Differ old_dir (uni e.inodes old) new_dir (uni e.inodes new))
      (apart' : Differ new_dir (uni e.inodes new) old_dir (uni e.inodes old)) where
    abbrev Safe : Reply (Unit {0}) × S → Type 0
    Safe = HasName old_dir (uni e.inodes old) new_dir (uni e.inodes new) ino

    abbrev HasOld : S → Type 0
    HasOld s = names s old_dir (uni e.inodes old) ≡ some ino

    abbrev OldLeft : S → Type 0
    OldLeft = Left law old_dir ino (uni e.inodes old)

    abbrev HasNew : S → Type 0
    HasNew s = names s new_dir (uni e.inodes new) ≡ some ino
