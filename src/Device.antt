-- ===== src/Device.antt =====
-- ntfs_device_fskit.c, lines 23 to 240: the device operations that libntfs-3g calls. libntfs-3g
-- asks for ranges of bytes, the medium takes whole blocks: a read or write is cut into a head, a
-- middle and a tail, and partial blocks go through a bounce buffer.
pub mod Align
pub mod Medium
pub mod Cuts
pub mod Failure
pub mod Pread
pub mod Pwrite
pub mod Ops
pub mod RoundTrip
mod Tests
use usbrw.Base.{
  ℕ, ◌-◌, ◌*◌, ◌%◌, ◌^◌, Bool, not, ◌||◌, List, Option, none, some, String, bit_and, ltb, leb, ◌==◌,
  if◌then◌else◌, take,
}
use usbrw.Base.Int.{ℤ, neg, is_zero}
use usbrw.Bridge.{BlockIo, ok, fail, fault, Call}

-- `struct ntfs_device`, as far as the operations use it.
pub record Device (W : Type 0) : Type 0 where
  pub d_private : Option (BlockIo W)
  pub is_open : Bool
  pub is_read_only : Bool

abbrev pub align_max : ℕ
align_max = 4096

-- x & ~m: the bits of x that m lacks.
abbrev pub bit_clear : ℕ → ℕ → ℕ
bit_clear x m = x - bit_and x m

-- The size of the blocks in which the medium is addressed.
pub align_quantum : ℕ → ℕ
align_quantum block_size =
    let a = if block_size == 0 then 512 else block_size in
    if ltb a 512 || ltb align_max a || not (bit_and a (a - 1) == 0) then 512 else a

-- The end of a request, cut at the end of the device if that is known.
pub clamp_end : (block_count al off end : ℕ) → ℕ
clamp_end block_count al off end =
    let limit = block_count * al % 2 ^ 64 in
    if block_count == 0
    then end
    else if leb limit off
    then off
    else if ltb limit end
    then limit
    else end

-- The bytes of a partial block that the request takes: up to the block's end or the request's.
pub head_length : (al cur end : ℕ) → ℕ
head_length al cur end =
    let n = al - (cur - bit_clear cur (al - 1)) in if ltb (end - cur) n then end - cur else n

module _ {W : Type 0} where
  -- if (rc) { errno = -rc; nfsk_io_log(op, rc, off, len); return -1; }
  checked : {A : Type 0} → String → ℕ → ℕ → ℤ → A → Call W A
  checked op off len rc a m = if is_zero rc then (ok a, m) else (
    fail,
    record m {
      errno = neg rc;
      last_error = some (record { op = op; rc = rc; off = off; len = len });
    },
  )

  pub call_read : BlockIo W → String → ℕ → ℕ → Call W (List ℕ)
  unfolding checked
  call_read io op off len m = elim io.read [
    | none ↦ (fault, m)
    | some read ↦
        let (rc, bytes, w) = read m.disk off len in
        checked op off len rc bytes (record m { disk = w })
  ]

  pub call_write : BlockIo W → String → ℕ → List ℕ → ℕ → Call W (Unit {0})
  unfolding checked
  call_write io op off bytes len m = elim io.write [
    | none ↦ (fault, m)
    | some write ↦
        let (rc, w) = write m.disk off (take len bytes) in
        checked op off len rc tt (record m { disk = w })
  ]
