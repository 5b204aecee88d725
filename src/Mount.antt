-- ===== src/Mount.antt =====
-- ntfs_device_fskit.c, lines 257 to 368: mounting, unmounting and syncing an NTFS volume, with the
-- global lock of ntfs_fskit.c, lines 64 to 72. What is counted is what must be given back: the
-- depth of the recursive lock, allocated volumes and devices.
pub mod Opts
pub mod Balance
pub mod Hiberfile
mod Tests
use usbrw.Base.{
  ℕ, ◌+◌, ◌-◌, Bool, true, false, not, ◌&&◌, ◌||◌, Option, none, some, List, [], if◌then◌else◌,
  take,
}
use usbrw.Base.Int.{ℤ, neg, pos}
use usbrw.Bridge.{einval}
use Opts.{has}

pub data VolumeError : Type 0 where
  not_ntfs corrupt hibernated unclean_unmount locked unknown : VolumeError

-- The message that is left in `err`.
pub data Complaint : Type 0 where
  bad_callbacks oom device_alloc_failed : Complaint
  mount_failed : VolumeError → Complaint
  hiberfile_kept : Complaint

pub record MountFlags : Type 0 where
  pub exclusive : Bool
  pub rdonly : Bool
  pub recover : Bool
  pub ignore_hiberfile : Bool

-- The calls of libntfs-3g and of the C library that mounting makes, over the volumes `V`.
pub record Mounter (V : Type 0) : Type 0 where
  pub calloc_works : Bool
  pub device_alloc_works : Bool
  pub malloc_works : Bool
  pub mount : MountFlags → Option V
  pub volume_error : VolumeError
  pub set_shown_files : (sys hid dot : Bool) → V → V
  pub set_compression : Bool → V → V
  pub vol_name : V → Option (List ℕ)
  pub set_vol_name : List ℕ → V → V
  pub is_read_only : V → Bool
  pub check_hiberfile : V → Bool
  -- nfsk_unlink(v, 5, "hiberfil.sys", 0): whether it failed
  pub unlink_hiberfile : V → Bool × V

-- What the calls take and must give back, which the program itself does not count.
pub record Held : Type 0 where
  pub lock_depth : ℕ
  pub volumes : ℕ
  pub devices : ℕ
  -- how often the hibernation file was to be removed
  pub removals : ℕ

pub nfsk_lock : Held → Held
nfsk_lock h = record h { lock_depth = h.lock_depth + 1 }

pub nfsk_unlock : Held → Held
nfsk_unlock h = record h { lock_depth = h.lock_depth - 1 }

pub mount_flags : (readonly recover : Bool) → (opts : ℕ) → MountFlags
mount_flags readonly recover opts = record {
  exclusive = true;
  rdonly = readonly;
  recover = recover && not (has opts Opts.norecover);
  ignore_hiberfile = has opts Opts.remove_hiberfile;
}

module _ {V : Type 0} (lib : Mounter V) where
  abbrev pub Mounted : Type 0
  Mounted = (Option V × Option Complaint) × Held

  -- The name moves to a buffer of 128 bytes, if there is memory for it.
  pub widen_name : V → V
  widen_name vol = if not lib.malloc_works then vol else elim (lib.vol_name vol) [
    | none ↦ lib.set_vol_name [] vol
    | some name ↦ lib.set_vol_name (take 127 name) vol
  ]

  -- The rescue of a hibernated volume: a failure leaves a message, and the volume mounted.
  remove_hiberfile : (opts : ℕ) → V → Held → Mounted
  unfolding nfsk_unlock
  remove_hiberfile opts vol h =
      if has opts Opts.remove_hiberfile && (not (lib.is_read_only vol) && lib.check_hiberfile vol)
      then (let (failed, vol) = lib.unlink_hiberfile vol in
          (
            (some vol, if failed then some hiberfile_kept else none),
            nfsk_unlock (record h { removals = h.removals + 1 }),
          ))
      else ((some vol, none), nfsk_unlock h)

  pub configure : (opts : ℕ) → V → V
  unfolding widen_name
  configure opts vol = widen_name (
      lib.set_compression (not (has opts Opts.no_compression)) (
        lib.set_shown_files (has opts Opts.show_sys_files) (not (has opts Opts.hide_hid_files))
          (has opts Opts.hide_dot_files) vol))

  after_mount : (opts : ℕ) → Option V → Held → Mounted
  unfolding remove_hiberfile
  after_mount opts (some vol) h = remove_hiberfile opts (configure opts vol) h
  after_mount opts none h = (
    (none, some (mount_failed lib.volume_error)),
    nfsk_unlock (record h { devices = h.devices - 1; volumes = h.volumes - 1 }),
  )

  -- `usable`: the callbacks record and its read callback are not NULL.
  pub open_ex : (usable readonly recover : Bool) → (opts : ℕ) → Held → Mounted
  unfolding nfsk_lock nfsk_unlock after_mount
  open_ex usable readonly recover opts h =
      let h = nfsk_lock h in
      if not usable
      then ((none, some bad_callbacks), nfsk_unlock h)
      else if not lib.calloc_works
      then ((none, some oom), h)
      else let h = record h { volumes = h.volumes + 1 } in
        if not lib.device_alloc_works
        then ((none, some device_alloc_failed), record h { volumes = h.volumes - 1 })
        else after_mount opts (lib.mount (mount_flags readonly recover opts))
            (record h { devices = h.devices + 1 })

  -- `nfsk_open`: no options.
  pub open_default : (usable readonly recover : Bool) → Held → Mounted
  open_default usable readonly recover = open_ex usable readonly recover 0

-- `nfsk_close`: a successful umount frees the device, and the volume is freed in any case.
pub close : (present has_vol umount_works : Bool) → Held → Held
unfolding nfsk_lock nfsk_unlock
close present has_vol umount_works h =
    if not present
    then h
    else let h = nfsk_lock h in
      let h = if has_vol && umount_works then record h { devices = h.devices - 1 } else h in
      nfsk_unlock (record h { volumes = h.volumes - 1 })

-- `nfsk_sync_volume`: `sync` is what the sync callback of the device returns.
pub sync_volume : (present has_vol : Bool) → (sync : ℤ) → Held → ℤ × Held
unfolding nfsk_lock nfsk_unlock
sync_volume present has_vol sync h =
    if not present
    then (neg (pos einval), h)
    else let h = nfsk_lock h in (if not has_vol then neg (pos einval) else sync, nfsk_unlock h)
