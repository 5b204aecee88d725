-- ===== src/Mount/Tests.antt =====
-- Runs of the mounting of an NTFS volume, of which only the name is kept.
use usbrw.Base.{ℕ, ◌≡◌, ◌≢◌, arith, List, [], some, Bool, true, false, is_some, if◌then◌else◌}
use usbrw.Base.Int.{pos}
use usbrw.Mount.{
  Mounter, Held, open_ex, after_mount, remove_hiberfile, open_default, close, sync_volume,
  unclean_unmount,
}
use usbrw.Mount.Balance.{open_ex_lock, open_ex_memory, close-sync_balanced}
use usbrw.Mount.Hiberfile.{MayRemove, removal_lem}
use usbrw.Mount.Opts

-- A library whose device allocation fails, or works.
abbrev library : Bool → Mounter (List ℕ)
library device_alloc_works = record {
  calloc_works = true;
  device_alloc_works = device_alloc_works;
  malloc_works = true;
  mount = λ flags. some [];
  volume_error = unclean_unmount;
  set_shown_files = λ sys hid dot vol. vol;
  set_compression = λ on vol. vol;
  vol_name = λ vol. some vol;
  set_vol_name = λ name vol. name;
  is_read_only = λ vol. false;
  check_hiberfile = λ vol. true;
  unlink_hiberfile = λ vol. (false, vol);
}

abbrev nothing_held : Held
nothing_held = record { lock_depth = 0; volumes = 0; devices = 0; removals = 0 }

open_ex_lock_example : (open_ex (library false) true false true 0 nothing_held).1.lock_depth ≡ 1
open_ex_lock_example = open_ex_lock (library false) true false true 0 nothing_held

open_ex_memory_example :
    let ((result, _), h) =
      open_ex (library true) true false true Opts.remove_hiberfile nothing_held in
    (h.volumes ≡ (if is_some result then 1 else 0))
    × (h.devices ≡ (if is_some result then 1 else 0))
open_ex_memory_example =
    open_ex_memory (library true) true false true Opts.remove_hiberfile nothing_held

close-sync_balanced_example :
    let closed = close true true true (record nothing_held { volumes = 1; devices = 1 }) in
    (closed.lock_depth ≡ 0)
    × (closed.volumes ≡ 0)
    × (closed.devices ≡ 0)
    × ((sync_volume true true (pos 0) (record nothing_held { volumes = 1; devices = 1 })).1
        ≡ record nothing_held { volumes = 1; devices = 1 })
close-sync_balanced_example =
    close-sync_balanced true true (pos 0) (record nothing_held { volumes = 1; devices = 1 })

-- The library says that the volume is hibernated, and the option is given.
removed_once :
    (open_ex (library true) true false true Opts.remove_hiberfile nothing_held).1.removals ≢ 0
unfolding open_ex after_mount remove_hiberfile
removed_once h = ground arith

removal_lem_example :
    MayRemove (library true) false true Opts.remove_hiberfile
    × ((open_ex (library true) true false true Opts.remove_hiberfile nothing_held).1.removals ≡ 1)
removal_lem_example =
    removal_lem (library true) true false true Opts.remove_hiberfile nothing_held removed_once

-- The default: no option, and the file stays.
open_default_example : (open_default (library true) true false true nothing_held).1.removals ≡ 0
unfolding open_default open_ex after_mount remove_hiberfile
open_default_example = ground arith
