-- ===== src/Ntfs/Readdir.antt =====
-- ntfs_fskit.c, lines 218 to 230 and 425 to 569: enumerating a directory from a cookie on. The
-- library tells of each entry where it stands; the caller wants to know where the next one stands,
-- so an entry is kept back until the next has come.
pub mod Delivery
pub mod Resume
use usbrw.Base.{
  ℕ, zero, suc, Bool, true, false, not, ◌&&◌, ◌||◌, Option, none, some, List, [], ◌∷◌, leb, ◌==◌,
  if◌then◌else◌, take, bit_or,
}
use usbrw.Base.Int.{ℤ, pos, negsuc}
use usbrw.Bridge.{Stat, blank_stat, einval, eio, enotdir}
use usbrw.Bridge.Mode
use usbrw.Ext.Dir.{DirentCb}
use usbrw.Ext.Reply.{Reply, done, failed}

-- NTFS_DT_...: the type that a directory's index has of an entry.
pub data DtType : Type 0 where
  dt_dir dt_lnk dt_fifo dt_sock dt_blk dt_chr dt_reparse dt_other : DtType

pub dt_mode : DtType → ℕ
dt_mode dt_dir = Mode.full Mode.ifdir
dt_mode dt_lnk = Mode.full Mode.iflnk
dt_mode dt_fifo = Mode.ififo
dt_mode dt_sock = Mode.ifsock
dt_mode dt_blk = bit_or Mode.ifblk 0o666
dt_mode dt_chr = bit_or Mode.ifchr 0o666
dt_mode dt_reparse = Mode.full Mode.iflnk
dt_mode dt_other = Mode.full Mode.ifreg

-- The arguments of filldir: the UTF-16 name, whether it is a DOS alias, and MREF(mref).
pub record Entry : Type 0 where
  pub name : List ℕ
  pub is_dos : Bool
  pub position : ℕ
  pub number : ℕ
  pub dt_type : DtType

-- An inode that could be opened: what fill_stat put into the record, whether it succeeded, and
-- whether the inode could be closed.
pub record Opened : Type 0 where
  pub stat : Stat
  pub filled : Bool
  pub closed : Bool

-- What ntfs_readdir is told: 0, 1 or -1.
pub data Verdict : Type 0 where
  go_on stop broken : Verdict

-- How ntfs_readdir ends: with 0, or with another code and errno set.
pub data Ending : Type 0 where
  finished : Ending
  interrupted : (errno : ℕ) → Ending

-- A directory that was opened: whether it is one, and the errno value if it cannot be closed.
pub record Dir : Type 0 where
  pub is_directory : Bool
  pub close_errno : Option ℕ

-- The calls of libntfs-3g, on a volume that does not change while a directory is read.
pub record Library : Type 1 where
  pub open_inode : ℕ → Option Opened
  pub ucstombs : List ℕ → Option (List ℕ)
  pub open_dir : ℕ → Option Dir
  -- errno after a directory could not be opened
  pub open_errno : ℕ
  -- the directory, where to begin, the function; how it ended, and where
  pub read_entries : (P : Type 0) → ℕ → ℕ → (Entry → P → Verdict × P) → P → (Ending × ℕ) × P

-- The entry that is kept back.
pub record Prev : Type 0 where
  pub mft : ℕ
  pub name : List ℕ
  pub st : Stat

-- `struct nfsk_rd_ctx`, but for what does not change; `err` is the negated error of the caller.
pub record RdCtx (C : Type 0) : Type 0 where
  pub cbctx : C
  pub stopped : Bool
  pub err : Option ℕ
  pub prev : Option Prev

-- "." and "..".
abbrev pub is_dots : List ℕ → Bool
is_dots (a ∷ []) = a == b'.'
is_dots (a ∷ b ∷ []) = a == b'.' && b == b'.'
is_dots _ = false

-- The entries that are reported, if their names can be converted.
abbrev pub is_shown : Entry → Bool
is_shown entry = not (entry.is_dos || (is_dots entry.name || leb entry.number 1))

module _ (lib : Library) (want_attrs : Bool) where
  abbrev pub light_stat : Entry → Stat
  light_stat entry = record blank_stat { mft = entry.number; mode = dt_mode entry.dt_type }

  -- What was filled in of an inode; nothing is kept of one that could not be closed.
  filled_stat : Entry → Opened → Stat
  filled_stat entry opened =
      if not opened.closed
      then light_stat entry
      else if opened.filled
      then record opened.stat { mft = entry.number }
      else opened.stat

  pub entry_stat : Entry → Stat
  unfolding filled_stat
  entry_stat entry =
      if not want_attrs then light_stat entry else elim (lib.open_inode entry.number) [
        | none ↦ light_stat entry
        | some opened ↦ filled_stat entry opened
      ]

  -- Names are cut to 255 bytes.
  abbrev pub prev_of : Entry → List ℕ → Prev
  prev_of entry mbs = record { mft = entry.number; name = take 255 mbs; st = entry_stat entry }

  module _ {C : Type 0} (cb : DirentCb C) where
    -- The entry is kept back; one whose name cannot be converted is passed over.
    abbrev pub keep_named : Option (List ℕ) → Entry → RdCtx C → Verdict × RdCtx C
    keep_named none entry c = (go_on, c)
    keep_named (some mbs) entry c = (go_on, record c { prev = some (prev_of entry mbs) })

    abbrev pub keep_back : Entry → RdCtx C → Verdict × RdCtx C
    keep_back entry = keep_named (lib.ucstombs entry.name) entry

    abbrev pub after_cb : Entry → ℤ × C → RdCtx C → Verdict × RdCtx C
    after_cb entry (pos zero, ctx) c = keep_back entry (record c { cbctx = ctx; prev = none })
    after_cb entry (pos (suc n), ctx) c =
        (stop, record c { cbctx = ctx; prev = none; stopped = true })
    after_cb entry (negsuc n, ctx) c =
        (broken, record c { cbctx = ctx; prev = none; err = some (suc n) })

    abbrev pub hand_over : Prev → (next : ℕ) → C → ℤ × C
    hand_over prev next ctx = cb prev.mft prev.name prev.st next ctx

    -- The entry that was kept back goes out with the position of the one that has come.
    abbrev pub flush : Entry → Option Prev → RdCtx C → Verdict × RdCtx C
    flush entry none c = keep_back entry c
    flush entry (some prev) c = after_cb entry (hand_over prev entry.position c.cbctx) c

    pub rd_filldir : Entry → RdCtx C → Verdict × RdCtx C
    rd_filldir entry c =
        if c.stopped
        then (stop, c)
        else if not (is_shown entry)
        then (go_on, c)
        else flush entry c.prev c

    -- The error of the caller, or of the library.
    abbrev pub outcome : Ending → RdCtx C → Option ℕ
    outcome finished c = c.err
    outcome (interrupted errno) c =
        if c.stopped
        then c.err
        else elim c.err [ none ↦ some (if errno == 0 then eio else errno) | some e ↦ some e ]

    abbrev pub last_result : ℤ × C → Option ℕ × C
    last_result (pos n, ctx) = (none, ctx)
    last_result (negsuc n, ctx) = (some (suc n), ctx)

    -- The last entry goes out with the position where the library ended.
    abbrev pub flush_last : Option ℕ → Bool → Option Prev → (next : ℕ) → C → Option ℕ × C
    flush_last none false (some prev) next ctx = last_result (hand_over prev next ctx)
    flush_last res stopped prev next ctx = (res, ctx)

    abbrev pub closing : Option ℕ → Option ℕ → Reply (Unit {0})
    closing (some e) close_errno = failed e
    closing none (some e) = failed e
    closing none none = done tt

    -- The result, the cookie that is written back, and the caller's state.
    pub readdir : (live : Bool) → ℕ → (cookie : ℕ) → C → (Reply (Unit {0}) × ℕ) × C
    unfolding rd_filldir
    readdir live dir cookie ctx =
        if not live then ((failed einval, cookie), ctx) else elim (lib.open_dir dir) [
          | none ↦ ((failed lib.open_errno, cookie), ctx)
          | some d ↦
              if not d.is_directory
              then ((failed enotdir, cookie), ctx)
              else let start : RdCtx C = record {
                cbctx = ctx;
                stopped = false;
                err = none;
                prev = none;
              } in
                let ((ending, position), c) =
                  lib.read_entries (RdCtx C) dir cookie rd_filldir start in
                let (res, ctx) = flush_last (outcome ending c) c.stopped c.prev position c.cbctx in
                ((closing res d.close_errno, position), ctx)
        ]
