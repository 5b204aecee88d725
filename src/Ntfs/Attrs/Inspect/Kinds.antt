-- ===== src/Ntfs/Attrs/Inspect/Kinds.antt =====
-- What `nfsk_getattr` says of a file, whichever calls of the library fail.
use usbrw.Base.{ℕ, ◌≡◌, Bool, true, false, if◌then◌else◌}
use usbrw.Bridge.{Stat}
use usbrw.Bridge.Mode
use usbrw.Ntfs.Attrs.{Node, Engine, Magic, uf_hidden}
use usbrw.Ntfs.Call.Holds.{Holds}
use usbrw.Ntfs.Attrs.Inspect.SystemFiles.{Steady, Right}

-- The kind, the size and the number of links; every file may be read, written and run by all.
abbrev pub Shaped :
    (right : ℕ → Type 0) (n : Node) (reparse directory system : Bool) → Stat → Type 0
Shaped right n true directory system st =
    (st.mode ≡ Mode.full Mode.iflnk) × (st.links ≡ n.link_count)
Shaped right n false true system st = (st.mode ≡ Mode.full Mode.ifdir) × (st.links ≡ 1)
Shaped right n false false false st =
    (st.mode ≡ Mode.full Mode.ifreg) × (st.size ≡ n.data_size) × (st.links ≡ n.link_count)
Shaped right n false false true st =
    ((k : ℕ) × right k × (st.mode ≡ Mode.full k)) × (st.links ≡ n.link_count)

-- `right` says which kind a system file is.
pub record Described (right : ℕ → Type 0) (seconds : ℕ → ℕ) (n : Node)
    (reparse directory system : Bool) (st : Stat) : Type 0 where
  pub shape : Shaped right n reparse directory system st
  pub number : st.mft ≡ n.mft_no
  pub owner : st.uid ≡ 0
  pub group : st.gid ≡ 0
  pub atime : st.atime ≡ seconds n.last_access_time
  pub mtime : st.mtime ≡ seconds n.last_data_change_time
  pub ctime : st.ctime ≡ seconds n.last_mft_change_time
  pub btime : st.btime ≡ seconds n.creation_time
  pub mark : st.flags ≡ (if n.is_hidden then uf_hidden else 0)

module _ {S : Type 0} {e : Engine S} {mft size : ℕ} {magic : Magic} (law : Steady e mft size magic)
    (n : Node) where
  abbrev Same : S → Type 0
  Same s = e.node mft s ≡ n

  -- The node of a directory, but for the sizes.
  abbrev Sized : Node → Type 0
  Sized m = record m { data_size = n.data_size; allocated_size = n.allocated_size } ≡ n

  -- The answer for a file of each kind.
  abbrev Answer : (reparse directory system : Bool) → Stat → S → Type 0
  Answer reparse directory system st s =
      Described (Right law n) e.seconds n reparse directory system st
