-- ===== src/Ntfs/Attrs/Inspect/SystemFiles.antt =====
-- The kind of a system file, which its data tell: ntfs_fskit.c, lines 151 to 199.
use usbrw.Base.{
  ℕ, ◌+◌, ◌*◌, ◌<◌, ◌≤◌, ◌⊎◌, ◌≡◌, sym, arith, ==→eq, refl, Bool, true, false, Option, none, some,
  ltb, leb, ◌==◌, Bool-cases, inl, inr,
}
use usbrw.Base.Int.{pos}
use usbrw.Ext.Reply.{and_then}
use usbrw.Ntfs.Attrs.SpecialData.{intx_read-Holds}
use usbrw.Bridge.Mode
use usbrw.Ext.Engine.{Name}
use usbrw.Ntfs.Attrs.{
  Node, Engine, DataAttr, Magic, symbolic_link, block_device, character_device, other_magic,
  path_max, Intx,
}
use usbrw.Ntfs.Attrs.Inspect.{kind_of, base_kind, malloc, intx, classified, special, examined}
use usbrw.Ntfs.Call.Holds.{Holds, bind-Holds, succeed_or-Holds, obtained-Holds, afterwards-Holds}
use usbrw.Ntfs.Data.{Opening, opened, cannot}

-- The kind of a system file, by the size of its data and the magic number in it. One that is as
-- long as the header of a special file and some more, but not longer than a link can be, is what the
-- magic number says; any other is a fifo if it is empty and a socket if it has one byte, unless it
-- is hidden. Where the data cannot be opened, it counts as a regular file.
pub data SystemKind {S : Type 0} (e : Engine S) (mft size : ℕ) (magic : Magic) (hidden : Bool)
    : ℕ → Type 0 where
  unopened :
      (s : S) (errno : ℕ)
      → (e.open_data mft s).0 ≡ cannot errno
      → SystemKind e mft size magic hidden Mode.ifreg
  link :
      e.intx_header < size
      → size ≤ e.intx_header + 2 * path_max
      → magic ≡ symbolic_link
      → SystemKind e mft size magic hidden Mode.iflnk
  block :
      e.intx_header < size
      → size ≤ e.intx_header + 2 * path_max
      → magic ≡ block_device
      → SystemKind e mft size magic hidden Mode.ifblk
  character :
      e.intx_header < size
      → size ≤ e.intx_header + 2 * path_max
      → magic ≡ character_device
      → SystemKind e mft size magic hidden Mode.ifchr
  fifo : hidden ≡ false → size ≡ 0 → SystemKind e mft size magic hidden Mode.ififo
  socket :
      hidden ≡ false
      → size ≡ 1
      → size ≤ e.intx_header ⊎ (magic ≡ other_magic)
      → SystemKind e mft size magic hidden Mode.ifsock
  regular :
      (hidden ≡ true) ⊎ (1 < size)
      → size ≤ e.intx_header ⊎ (e.intx_header + 2 * path_max < size) ⊎ (magic ≡ other_magic)
      → SystemKind e mft size magic hidden Mode.ifreg

-- What the calls that only look leave as it is; the size of a directory may be looked up late.
-- The data of the file have a size, and a magic number at the start.
pub record Steady {S : Type 0} (e : Engine S) (mft size : ℕ) (magic : Magic) : Type 0 where
  pub data_size :
      (s : S) (attr : DataAttr) → (e.open_data mft s).0 ≡ opened attr → attr.data_size ≡ size
  pub read_magic :
      (s : S)
      → (e.pread_intx mft size s).0.0 ≡ pos size
      → (e.pread_intx mft size s).0.2.magic ≡ magic
  -- a read that does not give all bytes sets errno
  pub read_errno :
      (s : S) → (e.pread_intx mft size s).0.1 ≡ 0 → (e.pread_intx mft size s).0.0 ≡ pos size
  pub open_inode : (n : ℕ) (s : S) → e.node mft (e.inodes.open_inode n s).1 ≡ e.node mft s
  pub make_symlink : (s : S) → e.node mft (e.make_symlink mft s).1 ≡ e.node mft s
  pub index_sizes : (s : S) → e.node mft (e.index_sizes mft s).1 ≡ e.node mft s
  pub cache_sizes :
      (size alloc : ℕ) (s : S)
      → e.node mft (e.cache_sizes mft (size, alloc) s)
        ≡ record (e.node mft s) { data_size = size; allocated_size = alloc }

module _ {S : Type 0} {e : Engine S} {mft size : ℕ} {magic : Magic} (law : Steady e mft size magic)
    (n : Node) where
  abbrev pub Free : S → Type 0
  Free _ = Unit

  abbrev pub Right : ℕ → Type 0
  Right = SystemKind e mft size magic n.is_hidden

  -- All is filled in, and the type bits are right.
  abbrev pub Kind : Bool × ℕ × ℕ → S → Type 0
  Kind found s = (found.0 ≡ true) × Right found.1

  -- Where the magic number does not count.
  abbrev NoMagic : Type 0
  NoMagic = size ≤ e.intx_header ⊎ (e.intx_header + 2 * path_max < size) ⊎ (magic ≡ other_magic)

  socket_kind : n.is_hidden ≡ false → size ≡ 1 → NoMagic → Right Mode.ifsock
  socket_kind shown one (inl short) = socket shown one (inl short)
  socket_kind shown one (inr (inl long)) = absurd (omega (arith, one, long))
  socket_kind shown one (inr (inr other)) = socket shown one (inr other)

  base_of : (hidden : Bool) → n.is_hidden ≡ hidden → NoMagic → Right (base_kind e mft hidden size)
  base_of true hidden no_magic = regular (inl hidden) no_magic
  base_of false shown no_magic = elim (Bool-cases (size == 0)) [
    | inl empty ↦ rw empty (fifo shown (==→eq size 0 empty))
    | inr more ↦ rw more (elim (Bool-cases (size == 1)) [
      | inl one ↦ rw one (socket_kind shown (==→eq size 1 one) no_magic)
      | inr long ↦ rw long (regular (inr (ground arith)) no_magic)
    ])
  ]

  base-Right : NoMagic → Right (base_kind e mft n.is_hidden size)
  base-Right no_magic = base_of n.is_hidden refl no_magic

  module _ (longer : e.intx_header < size) (fits : size ≤ e.intx_header + 2 * path_max) where
    kind_of-Holds :
        (read : Magic) (target : Name) (s : S)
        → read ≡ magic
        → Holds Kind Free
            (kind_of e mft (base_kind e mft n.is_hidden size) n.data_size read target s)
    kind_of-Holds symbolic_link target s same =
        bind-Holds Free (λ _ _. Unit) Kind _ _
          (obtained-Holds Free (λ _ _. Unit) (e.ucstombs target, s) tt (λ _ _. tt))
          λ text s _. (refl, link longer fits (sym same))
    kind_of-Holds block_device target s same = (refl, block longer fits (sym same))
    kind_of-Holds character_device target s same = (refl, character longer fits (sym same))
    kind_of-Holds other_magic target s same = (refl, base-Right (inr (inr (sym same))))

    -- The data that were read.
    abbrev IsRead : Option Intx → S → Type 0
    IsRead none _ = ⊥
    IsRead (some intx) _ = intx.magic ≡ magic

    classified-Holds :
        (read : Option Intx) (s : S)
        → IsRead read s
        → Holds Kind Free (classified e mft (base_kind e mft n.is_hidden size) n.data_size read s)
    classified-Holds none s right = absurd right
    classified-Holds (some intx) s right = kind_of-Holds intx.magic intx.target s right

    read-Holds :
        (s : S)
        → Holds Kind Free (
            and_then (malloc e mft size s) λ _ s.
              and_then
                (intx e mft size s)
                (classified e mft (base_kind e mft n.is_hidden size) n.data_size))
    read-Holds s =
        bind-Holds Free (λ _ _. Unit) Kind (malloc e mft size s) _
          (succeed_or-Holds Free (λ _ _. Unit) tt (e.malloc_errno size, s) tt (λ _. tt))
          λ _ s _.
            bind-Holds Free IsRead Kind (intx e mft size s) _
              (intx_read-Holds Free IsRead size (e.pread_intx mft size s) tt (law.read_errno s)
                (law.read_magic s))
              classified-Holds

  special-Holds :
      (attr : DataAttr) (s : S) → attr.data_size ≡ size → Holds Kind Free (special e mft n attr s)
  special-Holds attr s same = rw same (elim (Bool-cases (ltb e.intx_header size)) [
    | inl longer ↦ rw longer (elim (Bool-cases (leb size (e.intx_header + 2 * path_max))) [
      | inl fits ↦ rw fits (read-Holds (ground arith) (ground arith) s)
      | inr long ↦ rw long (refl, base-Right (inr (inl (ground arith))))
    ])
    | inr short ↦ rw short (refl, base-Right (inl (ground arith)))
  ])

  pub examined-Holds :
      (start : S) (run : Opening DataAttr × S)
      → run.0 ≡ (e.open_data mft start).0
      → Holds Kind Free (examined e mft n run)
  examined-Holds start (cannot errno, s) from = (refl, unopened start errno (sym from))
  examined-Holds start (opened attr, s) from =
      afterwards-Holds Free Kind (e.close_data mft) (special e mft n attr s) (λ s _. tt)
        (λ a s h. h) (special-Holds attr s (law.data_size start attr (sym from)))
