-- ===== src/Ext/Tests.antt =====
-- Runs of the ext4 bridge: an io_manager on a device of two blocks of 1024 bytes, and mounting.
mod Toy
mod Names
mod Data
mod Listing
use usbrw.Base.{
  ℕ, ◌%◌, ◌≡◌, refl, [], ◌∷◌, some, none, true, false, not, is_some, arith, if◌then◌else◌,
}
use usbrw.Base.Int.{pos, negsuc}
use usbrw.Bytes.{Content, slice, overlay}
use usbrw.Bridge.{BlockIo, Machine}
use usbrw.Ext.{ok, err, bad_device_name, block_bitmap_csum_invalid}
use usbrw.Ext.Channel.{
  Channel, open_channel, set_blocksize, flush, read_blk, write_blk, read_blk64, write_blk64,
}
use usbrw.Ext.Channel.Reads.{Serves, read_blk64_lem}
use usbrw.Ext.Channel.Writes.{Stores, write_blk64_lem}
use usbrw.Ext.Open.{Opener, Held, open_volume, close_volume, presuming, open_volume_balanced}

abbrev disk_io : BlockIo Content
disk_io = record {
  read = some (λ w off len. (pos 0, slice w off len, w));
  write = some (λ w off bs. (pos 0, overlay w off bs));
  sync = none;
  readonly = false;
  block_size = 512;
  block_count = 4;
}

abbrev channel : Channel Content
channel = record { private_data = some disk_io; block_size = 1024 }

abbrev machine : Machine Content
machine = record { disk = λ x. x % 256; errno = pos 0; last_error = none }

channel-Serves : Serves channel 2048 (λ w. w) disk_io
channel-Serves = record {
  attached = refl;
  block_pos = omega arith;
  small = omega arith;
  medium = record {
    reader = λ w off len. (pos 0, slice w off len, w);
    writer = λ w off bs. (pos 0, overlay w off bs);
    read_eq = refl;
    write_eq = refl;
    whole = refl;
    read_lem = λ w off len req. refl;
    write_ok = λ w off bs req. refl;
    write_lem = λ w off bs req. refl;
  };
}

open_channel_example :
    (open_channel (some disk_io) ≡ ok channel)
    × (open_channel {W = Content} none ≡ err bad_device_name)
    × (set_blocksize channel 4096 ≡ record channel { block_size = 4096 })
    × (flush channel machine ≡ (ok tt, machine))
unfolding open_channel set_blocksize flush
open_channel_example = (refl, refl, refl, refl)

-- Seven bytes from the second block on.
read_blk64_lem_example :
    read_blk64 channel 1 (negsuc 6) machine ≡ (ok (slice (λ x. x % 256) 1024 7), machine)
read_blk64_lem_example = read_blk64_lem machine 1 (negsuc 6) channel-Serves (omega arith)

read_blk_example : read_blk channel 1 (negsuc 2) machine ≡ (ok (0 ∷ 1 ∷ 2 ∷ []), machine)
unfolding read_blk
read_blk_example = read_blk64_lem machine 1 (negsuc 2) channel-Serves (omega arith)

write_blk64_lem_example :
    Stores
      (λ w. w)
      1024
      (7 ∷ 8 ∷ [])
      machine
      (write_blk64 channel 1 (negsuc 1) (7 ∷ 8 ∷ 9 ∷ []) machine)
write_blk64_lem_example =
    write_blk64_lem machine 1 (negsuc 1) (7 ∷ 8 ∷ 9 ∷ []) channel-Serves refl (omega arith)
      (omega arith)

write_blk_example :
    Stores (λ w. w) 0 (7 ∷ []) machine (write_blk channel 0 (negsuc 0) (7 ∷ []) machine)
unfolding write_blk
write_blk_example =
    write_blk64_lem machine 0 (negsuc 0) (7 ∷ []) channel-Serves refl (omega arith) (omega arith)

-- A volume whose block bitmap does not match its checksum.
abbrev corrupt : Opener ℕ
corrupt = record {
  open_flags = λ pending flags. ok flags;
  needs_recovery = λ fs. true;
  run_journal = λ pending fs. (false, some fs);
  read_bitmaps = λ fs. err block_bitmap_csum_invalid;
  stamp = λ fs. fs;
  calloc_works = true;
}

abbrev nothing_held : Held
nothing_held = record { pending = false; open_fs = 0; volumes = 0 }

open_volume_balanced_example :
    let ((result, complaint), h) = open_volume corrupt true true nothing_held in
    (open_volume (presuming corrupt) true true nothing_held
      ≡ open_volume corrupt true true nothing_held)
    × (h.pending ≡ false)
    × (is_some result ≡ not (is_some complaint))
    × (h.open_fs ≡ (if is_some result then 1 else 0))
    × (h.volumes ≡ (if is_some result then 1 else 0))
open_volume_balanced_example = open_volume_balanced corrupt true true nothing_held

close_volume_example :
    close_volume (record nothing_held { open_fs = 1; volumes = 1 }) ≡ nothing_held
unfolding close_volume
close_volume_example = refl
