-- ===== src/Mount/Hiberfile.antt =====
-- The hibernation file of Windows is only removed where that was asked for.
use usbrw.Base.{ℕ, ◌+◌, ◌≡◌, ◌≢◌, Bool, true, false, some, arith, Option-cases, inl, inr}
use usbrw.Mount.{Mounter, Held, mount_flags, open_ex, after_mount, configure, remove_hiberfile}
use usbrw.Mount.Opts
use usbrw.Mount.Opts.{has}

-- A volume was mounted, it is writable and hibernated, and the removal was asked for.
pub record MayRemove {V : Type 0} (lib : Mounter V) (readonly recover : Bool) (opts : ℕ)
    : Type 0 where
  pub vol : V
  pub mounted : lib.mount (mount_flags readonly recover opts) ≡ some vol
  pub asked : has opts Opts.remove_hiberfile ≡ true
  pub writable : lib.is_read_only (configure lib opts vol) ≡ false
  pub hibernated : lib.check_hiberfile (configure lib opts vol) ≡ true

-- `nfsk_open_ex` removes the hibernation file only of a volume that is mounted, writable and
-- hibernated, when the option for it was given; it does so at most once.
pub removal_lem :
    {V : Type 0} (lib : Mounter V) (usable readonly recover : Bool) (opts : ℕ) (h : Held)
    → let after = (open_ex lib usable readonly recover opts h).1.removals in
      after ≢ h.removals → MayRemove lib readonly recover opts × (after ≡ h.removals + 1)
unfolding open_ex after_mount remove_hiberfile
removal_lem lib usable readonly recover opts h changed =
    elim (Option-cases (lib.mount (mount_flags readonly recover opts))) [
      | inl missing ↦ ground arith
      | inr (vol, mounted) ↦ (
        record {
          vol = vol;
          mounted = mounted;
          asked = ground arith;
          writable = ground arith;
          hibernated = ground arith;
        },
        ground arith,
      )
    ]
