-- ===== src/Ntfs/Xattr/Streams/Reads.antt =====
-- Reading an extended attribute, whichever calls of the library fail.
use usbrw.Base.{ℕ, ◌≡◌, Option, none, some, List, ltb, ◌==◌, if◌then◌else◌, length}
use usbrw.Ext.Engine.{Name}
use usbrw.Ntfs.Call.{Inodes}
use usbrw.Ntfs.Call.Holds.{Holds}
use usbrw.Ntfs.Xattr.{Engine, Answer, size_only, content}
use usbrw.Ntfs.Xattr.Streams.{Table, Streams}

-- What a buffer of a length is answered, for an attribute that is there or not.
pub answer_of : (buflen : ℕ) → Option (List ℕ) → Option Answer
answer_of buflen none = none
answer_of buflen (some bytes) =
    if buflen == 0
    then some (size_only (length bytes))
    else if ltb buflen (length bytes)
    then none
    else some (content bytes)

module _ {S : Type 0} {e : Engine S} {v : S → Table} (law : Streams e v) (mft : ℕ) where
  abbrev i : Inodes S
  i = e.inodes

  module _ (u : Name) (buflen : ℕ) (t : Table) where
    abbrev Same : S → Type 0
    Same s = v s ≡ t

    abbrev Right : Answer → S → Type 0
    Right a s = Same s × (answer_of buflen (t mft u) ≡ some a)
