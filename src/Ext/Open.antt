-- ===== src/Ext/Open.antt =====
-- ext_fskit.c, lines 214 to 300: `extfsk_open` and `extfsk_close`. What is counted is what must be
-- given back: open file systems, allocated volumes, and the pending block device.
use usbrw.Base.{
  ℕ, ◌+◌, ◌-◌, Bool, true, false, not, ◌&&◌, Option, none, some, is_some, ◌≡◌, arith, bit_or,
  if◌then◌else◌,
}
use usbrw.Ext.{
  ErrCode, block_bitmap_csum_invalid, inode_bitmap_csum_invalid, Result, ok, err, diverges,
}

-- The message that is left in `err`.
pub data Complaint : Type 0 where
  bad_callbacks open_failed replay_failed oom bitmaps_inconsistent bitmaps_unreadable : Complaint

-- What is to be given back is not counted by the program; `pending` says that `g_io_channel_src` is
-- set.
pub record Held : Type 0 where
  pub pending : Bool
  pub open_fs : ℕ
  pub volumes : ℕ

-- EXT2_FLAG_RW and EXT2_FLAG_FORCE.
abbrev pub flag_rw : ℕ
flag_rw = 0x01

abbrev pub flag_force : ℕ
flag_force = 0x400

-- The calls of libext2fs that mounting makes, over the file systems `F`; those that open a channel
-- find the block device pending or not. The journal's replay frees its file system and opens it
-- again: `none` is a reopening that failed.
pub record Opener (F : Type 0) : Type 0 where
  pub open_flags : (pending : Bool) → (flags : ℕ) → Result F
  pub needs_recovery : F → Bool
  pub run_journal : (pending : Bool) → F → Bool × Option F
  pub read_bitmaps : F → Result F
  -- mount count, mount time, dirty mark and flush
  pub stamp : F → F
  pub calloc_works : Bool

module _ {F : Type 0} (o : Opener F) where
  abbrev Mounted : Type 0
  Mounted = (Option F × Option Complaint) × Held

  abbrev close_fs : Held → Held
  close_fs h = record h { open_fs = h.open_fs - 1 }

  -- g_io_channel_src = io; and g_io_channel_src = NULL;
  abbrev set : Held → Held
  set h = record h { pending = true }

  abbrev unset : Held → Held
  unset h = record h { pending = false }

  -- snprintf(err, ...); return NULL;
  abbrev give_up : Complaint → Held → Mounted
  give_up c h = ((none, some c), h)

  bitmaps_complaint : ErrCode → Complaint
  bitmaps_complaint block_bitmap_csum_invalid = bitmaps_inconsistent
  bitmaps_complaint inode_bitmap_csum_invalid = bitmaps_inconsistent
  bitmaps_complaint _ = bitmaps_unreadable

  -- The bitmaps of a volume that is to be written, and the marks in its superblock.
  finish_rw : Result F → Held → Mounted
  unfolding bitmaps_complaint
  finish_rw (ok fs) h = ((some (o.stamp fs), none), h)
  finish_rw (err c) h =
      give_up (bitmaps_complaint c) (record (close_fs h) { volumes = h.volumes - 1 })
  finish_rw diverges h =
      give_up bitmaps_unreadable (record (close_fs h) { volumes = h.volumes - 1 })

  attach : (rw : Bool) → F → Held → Mounted
  unfolding finish_rw
  attach rw fs h =
      if not o.calloc_works
      then give_up oom (close_fs h)
      else let h = record h { volumes = h.volumes + 1 } in
        if rw then finish_rw (o.read_bitmaps fs) h else ((some fs, none), h)

  -- if (jrc || !fs) { ...; if (fs) ext2fs_close(fs); return NULL; }
  after_replay : (rw : Bool) → Bool × Option F → Held → Mounted
  unfolding attach
  after_replay rw (failed, none) h = give_up replay_failed (close_fs h)
  after_replay rw (true, some fs) h = give_up replay_failed (close_fs h)
  after_replay rw (false, some fs) h = attach rw fs h

  -- The block device is pending while the journal is replayed.
  replayed : (rw : Bool) → F → Held → Mounted
  unfolding after_replay
  replayed rw fs h = let run = o.run_journal h.pending fs in after_replay rw run (unset h)

  opened : (rw : Bool) → Result F → Held → Mounted
  unfolding replayed
  opened rw (ok fs) h =
      let h = record (unset h) { open_fs = h.open_fs + 1 } in
      if rw && o.needs_recovery fs then replayed rw fs (set h) else attach rw fs h
  opened rw (err c) h = give_up open_failed (unset h)
  opened rw diverges h = give_up open_failed (unset h)

  -- `usable`: the callbacks record and its read callback are not NULL.
  pub open_volume : (usable rw : Bool) → Held → Mounted
  unfolding opened
  open_volume usable rw h =
      let flags = if rw then flag_rw else flag_force in
      let flags = if not rw then bit_or flags flag_force else flags in
      if not usable
      then give_up bad_callbacks h
      else let h = set h in opened rw (o.open_flags h.pending flags) h

-- `extfsk_close` of a volume that is there, with its file system.
unfoldable pub close_volume : Held → Held
close_volume h = record h { open_fs = h.open_fs - 1; volumes = h.volumes - 1 }

-- The same library, whose calls take the block device to be pending whether it is or not.
abbrev pub presuming : {F : Type 0} → Opener F → Opener F
presuming o = record o {
  open_flags = λ _. o.open_flags true;
  run_journal = λ _. o.run_journal true;
}

-- What `extfsk_open` holds on to: a mounted volume and its file system, or nothing. The block device
-- is pending whenever the library opens a channel, and is no longer so when the call returns, on
-- every path; if the callbacks are not usable, it sets none.
pub open_volume_balanced :
    {F : Type 0} (o : Opener F) (usable rw : Bool) (h : Held)
    → let ((result, complaint), h') = open_volume o usable rw h in
      (open_volume (presuming o) usable rw h ≡ open_volume o usable rw h)
      × (h'.pending ≡ (not usable && h.pending))
      × (is_some result ≡ not (is_some complaint))
      × (h'.open_fs ≡ (if is_some result then h.open_fs + 1 else h.open_fs))
      × (h'.volumes ≡ (if is_some result then h.volumes + 1 else h.volumes))
unfolding open_volume
open_volume_balanced o usable rw h = ground arith
