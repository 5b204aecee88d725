-- ===== src/Device/Tests.antt =====
-- Runs of the device operations on a medium of two blocks of 512 bytes.
use usbrw.Base.{ℕ, ◌%◌, ◌≡◌, ◌⊎◌, refl, List, [], ◌∷◌, some, none, Bool, true, false, inl, arith}
use usbrw.Base.Int.{pos, negsuc}
use usbrw.Bytes.{Content, slice, overlay}
use usbrw.Bridge.{BlockIo, Machine, ok, fail, einval, erofs}
use usbrw.Device.{Device, align_quantum, clamp_end, head_length, checked, call_read}
use usbrw.Device.Align.{FitsDevice}
use usbrw.Device.Failure.{Tells}
use usbrw.Device.Medium.{IsMedium, Puts}
use usbrw.Device.Ops
use usbrw.Device.RoundTrip.{pread-pwrite}
use usbrw.Device.Pread.{pread, pread_io, read_range, read_head, read_mid, read_tail}
use usbrw.Device.Pread.Refines.{pread_lem}
use usbrw.Device.Pread.Safety.{pread_failure}
use usbrw.Device.Pwrite.{pwrite, pwrite_io, write_range, write_head}
use usbrw.Device.Pwrite.Refines.{pwrite_lem}
use usbrw.Device.Pwrite.Safety.{pwrite_readonly, pwrite_failure}

abbrev disk_io : Bool → BlockIo Content
disk_io locked = record {
  read = some (λ w off len. (pos 0, slice w off len, w));
  write = some (λ w off bs. (pos 0, overlay w off bs));
  sync = none;
  readonly = locked;
  block_size = 512;
  block_count = 2;
}

-- The same, but every read fails with EIO.
abbrev broken_io : BlockIo Content
broken_io = record (disk_io false) { read = some (λ w off len. (negsuc 4, [], w)) }

abbrev device : BlockIo Content → Device Content
device io = record { d_private = some io; is_open = true; is_read_only = false }

abbrev machine : Machine Content
machine = record { disk = λ x. x % 256; errno = pos 0; last_error = none }

disk-IsMedium : (locked : Bool) → IsMedium (align_quantum 512) 1024 (λ w. w) (disk_io locked)
unfolding align_quantum
disk-IsMedium locked = record {
  reader = λ w off len. (pos 0, slice w off len, w);
  writer = λ w off bs. (pos 0, overlay w off bs);
  read_eq = refl;
  write_eq = refl;
  whole = refl;
  read_lem = λ w off len req. refl;
  write_ok = λ w off bs req. refl;
  write_lem = λ w off bs req. refl;
}

-- What is known of the size of the device, for a request of 10 bytes at 507.
fits_10 : FitsDevice 2 (align_quantum 512) 1024 507 10
unfolding align_quantum
fits_10 = record { no_wrap = omega arith; size_known = inl (omega arith, refl, omega arith) }

-- A read across a block boundary, and one that the end of the device cuts short.
pread_lem_example :
    pread (device (disk_io false)) (pos 10) (pos 507) machine
    ≡ (ok (10, slice (λ x. x % 256) 507 10), machine)
pread_lem_example = pread_lem (device (disk_io false)) machine refl (disk-IsMedium false) fits_10

pread_cut :
    pread (device (disk_io false)) (pos 10) (pos 1021) machine
    ≡ (ok (3, 253 ∷ 254 ∷ 255 ∷ []), machine)
unfolding pread pread_io read_range read_head read_mid read_tail call_read checked align_quantum
    clamp_end head_length
pread_cut = refl

abbrev ten : List ℕ
ten = 1 ∷ 2 ∷ 3 ∷ 4 ∷ 5 ∷ 6 ∷ 7 ∷ 8 ∷ 9 ∷ 10 ∷ []

pwrite_lem_example :
    Puts
      (λ w. w)
      507
      ten
      10
      machine
      (pwrite (device (disk_io false)) ten (pos 10) (pos 507) machine)
pwrite_lem_example =
    pwrite_lem (device (disk_io false)) machine ten refl (disk-IsMedium false) refl (omega arith)
      fits_10

pread-pwrite_example :
    let (written, m') = pwrite (device (disk_io false)) ten (pos 10) (pos 507) machine in
    (written ≡ ok 10) × (pread (device (disk_io false)) (pos 10) (pos 507) m' ≡ (ok (10, ten), m'))
pread-pwrite_example =
    pread-pwrite (device (disk_io false)) machine ten refl (disk-IsMedium false) refl (omega arith)
      fits_10

-- The first read fails with EIO.
pread_broken : (pread (device broken_io) (pos 10) (pos 507) machine).0 ≡ fail
unfolding pread pread_io read_range read_head read_mid read_tail call_read checked align_quantum
    clamp_end head_length
pread_broken = refl

pread_failure_example :
    ((pread (device broken_io) (pos 10) (pos 507) machine).1
      ≡ record machine { errno = pos einval })
    ⊎ Tells (some broken_io) (pread (device broken_io) (pos 10) (pos 507) machine).1
pread_failure_example = pread_failure (device broken_io) (pos 10) (pos 507) machine pread_broken

pwrite_broken : (pwrite (device broken_io) ten (pos 10) (pos 507) machine).0 ≡ fail
unfolding pwrite pwrite_io write_range write_head call_read checked align_quantum clamp_end
    head_length
pwrite_broken = refl

pwrite_failure_example :
    ((pwrite (device broken_io) ten (pos 10) (pos 507) machine).1
      ≡ record machine { errno = pos einval })
    ⊎ ((pwrite (device broken_io) ten (pos 10) (pos 507) machine).1
        ≡ record machine { errno = pos erofs })
    ⊎ Tells (some broken_io) (pwrite (device broken_io) ten (pos 10) (pos 507) machine).1
pwrite_failure_example =
    pwrite_failure (device broken_io) ten (pos 10) (pos 507) machine pwrite_broken

pwrite_readonly_example :
    (pwrite (device (disk_io true)) ten (pos 10) (pos 507) machine).1.disk ≡ (λ x. x % 256)
pwrite_readonly_example =
    pwrite_readonly (device (disk_io true)) ten (pos 10) (pos 507) machine refl refl

open_example :
    Ops.open_device (device (disk_io true))
    ≡ (pos 0, record { d_private = some (disk_io true); is_open = true; is_read_only = true })
unfolding Ops.open_device
open_example = refl

close_example : (Ops.close_device (device (disk_io true))).1.is_open ≡ false
unfolding Ops.close_device
close_example = refl

stat_example : (Ops.stat (device (disk_io true))).1.st_mode ≡ 0o060400
unfolding Ops.stat
stat_example = refl

sync_example : Ops.sync (device (disk_io true)) machine ≡ (pos 0, machine)
unfolding Ops.sync
sync_example = refl

refusals :
    (Ops.seek (device broken_io) (pos 9) 0 ≡ pos 0)
    × (Ops.read (device broken_io) (pos 9) ≡ negsuc 101)
    × (Ops.write (device broken_io) (pos 9) ≡ negsuc 101)
    × (Ops.ioctl (device broken_io) 9 ≡ negsuc 24)
unfolding Ops.seek Ops.read Ops.write Ops.ioctl
refusals = (refl, refl, refl, refl)
