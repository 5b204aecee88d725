-- ===== src/Device/Ops.antt =====
-- ntfs_device_fskit.c, lines 23 to 57 and 218 to 240: the device operations that move no bytes
-- of the medium.
use usbrw.Base.{ℕ, Bool, true, false, none, some, ◌||◌, bit_or, if◌then◌else◌}
use usbrw.Base.Int.{ℤ, pos, neg}
use usbrw.Bridge.{Machine, einval, enotty, eopnotsupp}
use usbrw.Bridge.Mode
use usbrw.Device.{Device}

-- The fields of `struct stat` that are set; the others are zero.
pub record BlockStat : Type 0 where
  pub st_mode : ℕ
  pub st_blksize : ℕ

module _ {W : Type 0} where
  -- The flags are not looked at.
  unfoldable pub open_device : Device W → ℤ × Device W
  open_device dev = elim dev.d_private [
    | none ↦ (neg (pos einval), dev)
    | some io ↦
        (pos 0, record dev { is_open = true; is_read_only = dev.is_read_only || io.readonly })
  ]

  unfoldable pub close_device : Device W → ℤ × Device W
  close_device dev = (pos 0, record dev { is_open = false })

  -- There is no position to move.
  unfoldable pub seek : Device W → (offset : ℤ) → (whence : ℕ) → ℤ
  seek dev offset whence = pos 0

  -- Reads and writes without an offset are refused.
  unfoldable pub read : Device W → (count : ℤ) → ℤ
  read dev count = neg (pos eopnotsupp)

  unfoldable pub write : Device W → (count : ℤ) → ℤ
  write dev count = neg (pos eopnotsupp)

  unfoldable pub sync : Device W → Machine W → ℤ × Machine W
  sync dev m = elim dev.d_private [
    | none ↦ (pos 0, m)
    | some io ↦ elim io.sync [
      | none ↦ (pos 0, m)
      | some flush ↦ let (rc, w) = flush m.disk in (rc, record m { disk = w })
    ]
  ]

  is_readonly : Device W → Bool
  is_readonly dev = elim dev.d_private [ none ↦ false | some io ↦ io.readonly ]

  unfoldable pub stat : Device W → ℤ × BlockStat
  unfolding is_readonly
  stat dev = (
    pos 0,
    record {
      st_mode = bit_or Mode.ifblk (if is_readonly dev then 0o400 else 0o600);
      st_blksize = 512;
    },
  )

  unfoldable pub ioctl : Device W → (request : ℕ) → ℤ
  ioctl dev request = neg (pos enotty)
