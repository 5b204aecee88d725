-- ===== src/Mount/Balance.antt =====
-- What mounting holds on to when it returns.
use usbrw.Base.{ℕ, ◌+◌, ◌-◌, ◌≡◌, Bool, true, not, ◌&&◌, ◌||◌, is_some, arith, if◌then◌else◌}
use usbrw.Mount.{Mounter, Held, open_ex, close, sync_volume}
use usbrw.Base.Int.{ℤ}

module _ {V : Type 0} (lib : Mounter V) (usable readonly recover : Bool) (opts : ℕ) (h : Held) where
  -- `nfsk_open_ex` returns with the lock as it found it, but for a failed allocation of the volume
  -- or of the device: then it returns with the lock held once more.
  pub open_ex_lock : (open_ex lib usable readonly recover opts h).1.lock_depth ≡ (
      if usable && (not lib.calloc_works || not lib.device_alloc_works)
      then h.lock_depth + 1
      else h.lock_depth)
  unfolding open_ex
  open_ex_lock = ground arith

  -- `nfsk_open_ex` keeps one volume and one device if it returns a volume, and none otherwise,
  -- whichever step failed.
  pub open_ex_memory :
      let ((result, _), h') = open_ex lib usable readonly recover opts h in
      (h'.volumes ≡ (if is_some result then h.volumes + 1 else h.volumes))
      × (h'.devices ≡ (if is_some result then h.devices + 1 else h.devices))
  unfolding open_ex
  open_ex_memory = ground arith

-- `nfsk_close` and `nfsk_sync_volume` return with the lock as they found it; closing gives
-- back the volume, and the device if the unmounting worked.
pub close-sync_balanced :
    (has_vol umount_works : Bool) (sync : ℤ) (h : Held)
    → let closed = close true has_vol umount_works h in
      (closed.lock_depth ≡ h.lock_depth)
      × (closed.volumes ≡ h.volumes - 1)
      × (closed.devices ≡ (if has_vol && umount_works then h.devices - 1 else h.devices))
      × ((sync_volume true has_vol sync h).1 ≡ h)
unfolding close sync_volume
close-sync_balanced has_vol umount_works sync h = ground arith
