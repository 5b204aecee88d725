-- ===== src/Ext/Channel.antt =====
-- ext_fskit.c, lines 53 to 210: the `io_manager` that libext2fs reads and writes blocks with.
-- A count of zero or more is a number of blocks, a negative one a number of bytes: those go
-- through a bounce buffer, block by block. Blocks are at most its 65536 bytes, the limit of e2fsprogs.
pub mod Reads
pub mod Writes
use usbrw.Base.{
  ℕ, zero, suc, ◌+◌, ◌-◌, ◌*◌, ◌/◌, ◌%◌, ◌^◌, Bool, false, Option, none, some, List, [], ◌++◌,
  String, ltb, if◌then◌else◌, take, drop,
}
use usbrw.Base.Int.{ℤ, pos, negsuc, is_zero}
use usbrw.Bytes.{splice}
use usbrw.Bridge.{BlockIo, Machine, Reader, Writer, eio, erofs}
use usbrw.Ext.{
  ErrCode, bad_device_name, system, Result, ok, err, diverges, Act, pure, raise, exhaust, ◌>>=◌,
  ◌>>◌,
}

-- `struct struct_io_channel`, as far as the callbacks use it.
pub record Channel (W : Type 0) : Type 0 where
  pub private_data : Option (BlockIo W)
  pub block_size : ℕ

module _ {W : Type 0} where
  -- The channel that `ext_io_open` makes of the pending block device, if one is pending.
  unfoldable pub open_channel : Option (BlockIo W) → Result (Channel W)
  open_channel none = err bad_device_name
  open_channel (some io) = ok (record { private_data = some io; block_size = 1024 })

  unfoldable pub set_blocksize : Channel W → ℕ → Channel W
  set_blocksize ch blocksize = record ch { block_size = blocksize }

  -- if (rc) { snprintf(g_last_error, ...); return EIO; }
  checked : {A : Type 0} → String → ℕ → ℕ → ℤ → A → Act (Machine W) A
  checked op off len rc a m = if is_zero rc then (ok a, m) else (
    err (system eio),
    record m { last_error = some (record { op = op; rc = rc; off = off; len = len }) },
  )

  -- if (!p) return EXT2_ET_BAD_DEVICE_NAME;
  abbrev required : {A B : Type 0} → Option A → (A → Act (Machine W) B) → Act (Machine W) B
  required none k = raise bad_device_name
  required (some a) k = k a

  -- The read callback, with the two tests for NULL.
  reader_of : Channel W → Option (Reader W)
  reader_of ch = elim ch.private_data [ none ↦ none | some io ↦ io.read ]

  writer_of : Channel W → Option (Writer W)
  writer_of ch = elim ch.private_data [ none ↦ none | some io ↦ io.write ]

  is_readonly : Channel W → Bool
  is_readonly ch = elim ch.private_data [ none ↦ false | some io ↦ io.readonly ]

  -- The branch of `ext_io_read_blk64` for a number of blocks.
  pub read_blocks : Channel W → (block count : ℕ) → Act (Machine W) (List ℕ)
  unfolding checked
  read_blocks ch block count = required (reader_of ch) λ read m.
      let off = block * ch.block_size % 2 ^ 64 in
      let len = count * ch.block_size in
      let (rc, bytes, w) = read m.disk off len in
      checked "ext io read" off len rc bytes (record m { disk = w })

  -- One round of a loop over bytes: what is left of the block, or of the request.
  pub round_length : Channel W → (offset left : ℕ) → ℕ
  round_length ch offset left =
      let n = ch.block_size - offset % ch.block_size in if ltb left n then left else n

  read_loop : ℕ → Channel W → (offset left : ℕ) → Act (Machine W) (List ℕ)
  read_loop fuel ch offset zero = pure []
  read_loop zero ch offset (suc left) = exhaust
  read_loop (suc fuel) ch offset (suc left) =
      let n = round_length ch offset (suc left) in
      do
        block ← read_blocks ch (offset / ch.block_size) 1
        rest ← read_loop fuel ch ((offset + n) % 2 ^ 64) (suc left - n)
        pure (take n (drop (offset % ch.block_size) block) ++ rest)

  -- Each round takes a byte at least, so `count` rounds are enough.
  pub read_byte : Channel W → (offset count : ℕ) → Act (Machine W) (List ℕ)
  read_byte ch offset count = read_loop count ch offset count

  pub read_blk64 : Channel W → ℕ → ℤ → Act (Machine W) (List ℕ)
  read_blk64 ch block (pos count) = read_blocks ch block count
  read_blk64 ch block (negsuc count) =
      required (reader_of ch) λ _. read_byte ch (block * ch.block_size % 2 ^ 64) (suc count)

  -- The branch of `ext_io_write_blk64` for a number of blocks.
  pub write_blocks : Channel W → (block count : ℕ) → List ℕ → Act (Machine W) (Unit {0})
  unfolding checked
  write_blocks ch block count bytes = required (writer_of ch) λ write.
      if is_readonly ch then raise (system erofs) else λ m.
      let off = block * ch.block_size % 2 ^ 64 in
      let len = count * ch.block_size in
      let (rc, w) = write m.disk off (take len bytes) in
      checked "ext io write" off len rc tt (record m { disk = w })

  write_loop : ℕ → Channel W → (offset left : ℕ) → List ℕ → Act (Machine W) (Unit {0})
  write_loop fuel ch offset zero src = pure tt
  write_loop zero ch offset (suc left) src = exhaust
  write_loop (suc fuel) ch offset (suc left) src =
      let n = round_length ch offset (suc left) in
      let blk = offset / ch.block_size in
      do
        block ← read_blocks ch blk 1
        write_blocks ch blk 1 (splice block (offset % ch.block_size) (take n src))
        write_loop fuel ch ((offset + n) % 2 ^ 64) (suc left - n) (drop n src)

  pub write_byte : Channel W → (offset count : ℕ) → List ℕ → Act (Machine W) (Unit {0})
  write_byte ch offset count src = write_loop count ch offset count src

  -- The tests for NULL and for a read-only device come before the sign of the count is looked at.
  pub write_blk64 : Channel W → ℕ → ℤ → List ℕ → Act (Machine W) (Unit {0})
  write_blk64 ch block (pos count) bytes = write_blocks ch block count bytes
  write_blk64 ch block (negsuc count) bytes = required (writer_of ch) λ _.
      if is_readonly ch
      then raise (system erofs)
      else write_byte ch (block * ch.block_size % 2 ^ 64) (suc count) bytes

  -- `ext_io_read_blk` and `ext_io_write_blk`: the same, for an `unsigned long` block.
  unfoldable pub read_blk : Channel W → ℕ → ℤ → Act (Machine W) (List ℕ)
  read_blk = read_blk64

  unfoldable pub write_blk : Channel W → ℕ → ℤ → List ℕ → Act (Machine W) (Unit {0})
  write_blk = write_blk64

  -- The code of the sync callback is dropped.
  unfoldable pub flush : Channel W → Act (Machine W) (Unit {0})
  flush ch m = elim ch.private_data [
    | none ↦ (ok tt, m)
    | some io ↦ elim io.sync [
      | none ↦ (ok tt, m)
      | some sync ↦ (ok tt, record m { disk = (sync m.disk).1 })
    ]
  ]
