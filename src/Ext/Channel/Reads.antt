-- ===== src/Ext/Channel/Reads.antt =====
-- The reads of the io_manager return the bytes asked for, counted in blocks or in bytes.
use usbrw.Base.{
  ℕ, zero, suc, ◌+◌, ◌-◌, ◌*◌, ◌/◌, ◌%◌, ◌^◌, ◌≤◌, ◌<◌, ◌≡◌, refl, ap, ◌∙◌, some, List, ◌++◌, arith,
}
use native.Mathlib.Nat.{mod-lt, mod-eq_of_lt, div-add-mod', mul-mod_left}
use usbrw.Base.Int.{ℤ, pos, negsuc}
use usbrw.Bytes.{Content, slice, window-slice, slice_at, slice-append}
use usbrw.Bridge.{BlockIo, Machine}
use usbrw.Device.Medium.{IsRequest, IsMedium}
use usbrw.Ext.{ok}
use usbrw.Ext.Channel.{
  Channel, reader_of, read_blocks, round_length, read_loop, read_byte, read_blk64,
}

-- A channel whose block device is there, and takes blocks of the channel's size.
pub record Serves {W : Type 0} (ch : Channel W) (size : ℕ) (content : W → Content) (io : BlockIo W)
    : Type 0 where
  pub attached : ch.private_data ≡ some io
  pub block_pos : 0 < ch.block_size
  pub small : size < 2 ^ 64
  pub medium : IsMedium ch.block_size size content io

pub block_inside :
    (b offset size : ℕ) → 0 < b → size % b ≡ 0 → offset < size → offset / b * b + b ≤ size
block_inside b offset size pos_b whole h = grind (arith, div-add-mod' offset b, div-add-mod' size b)

module _ {W : Type 0} {ch : Channel W} {size : ℕ} {content : W → Content} {io : BlockIo W}
    (serves : Serves ch size content io) (m : Machine W) where
  reader-eq : reader_of ch ≡ some serves.medium.reader
  unfolding reader_of
  reader-eq = rw serves.attached serves.medium.read_eq

  pub read_blocks-ok :
      (block count : ℕ)
      → IsRequest ch.block_size size (block * ch.block_size) (count * ch.block_size)
      → read_blocks ch block count m
        ≡ (ok (slice (content m.disk) (block * ch.block_size) (count * ch.block_size)), m)
  unfolding read_blocks
  read_blocks-ok block count req =
      let start : block * ch.block_size < 2 ^ 64 = omega (arith, req.inside, serves.small) in
      rw
        (
          reader-eq,
          mod-eq_of_lt start,
          serves.medium.read_lem m.disk (block * ch.block_size) (count * ch.block_size) req,
        )
        refl

  pub one_block :
      (offset : ℕ)
      → offset < size
      → IsRequest ch.block_size size (offset / ch.block_size * ch.block_size) (1 * ch.block_size)
  one_block offset h =
      let inside = block_inside ch.block_size offset size serves.block_pos serves.medium.whole h in
      record {
        off_aligned = mul-mod_left (offset / ch.block_size) ch.block_size;
        len_aligned = mul-mod_left 1 ch.block_size;
        inside = omega (arith, inside);
      }

  -- What a round takes lies in one block, and is at least a byte.
  pub round_lem :
      (offset left : ℕ)
      → 0 < left
      → let n = round_length ch offset left in
        (0 < n) × (n ≤ left) × (offset % ch.block_size + n ≤ ch.block_size)
  unfolding round_length
  round_lem offset left h = ground (arith, mod-lt offset serves.block_pos, serves.block_pos)

  read_loop-ok :
      (fuel offset left : ℕ)
      → left ≤ fuel
      → offset + left ≤ size
      → read_loop fuel ch offset left m ≡ (ok (slice (content m.disk) offset left), m)
  unfolding read_loop
  read_loop-ok zero offset zero enough inside = refl
  read_loop-ok (suc fuel) offset zero enough inside = refl
  read_loop-ok zero offset (suc left) enough inside = elim enough [ ]
  read_loop-ok (suc fuel) offset (suc left) enough inside =
      let b = ch.block_size in
      let c = content m.disk in
      let n = round_length ch offset (suc left) in
      let round = round_lem offset (suc left) (omega arith) in
      let next : offset + n < 2 ^ 64 = omega (arith, round.1, serves.small) in
      rw
        (
          read_blocks-ok (offset / b) 1 (one_block offset (omega arith)),
          mod-eq_of_lt next,
          read_loop-ok fuel (offset + n) (suc left - n) (omega (arith, round.0))
              (omega (arith, round.1)),
        )
        (ap (λ (bs : List ℕ). (ok bs, m))
          (ap (λ (bs : List ℕ). bs ++ slice c (offset + n) (suc left - n))
              (window-slice c (offset / b * b) (1 * b) (offset % b) n (omega (arith, round.2))
                ∙ slice_at c {m = n} (div-add-mod' offset b) refl)
            ∙ slice-append c offset n (suc left - n)
            ∙ slice_at c {n = suc left} refl (omega (arith, round.1))))

-- The bytes that a count stands for: blocks if it is zero or more, else bytes.
abbrev pub byte_count : (block_size : ℕ) → ℤ → ℕ
byte_count block_size (pos count) = count * block_size
byte_count block_size (negsuc count) = suc count

-- `ext_io_read_blk64` returns exactly the bytes that the count stands for, from the block's
-- first byte on, whatever the sign of the count, and changes nothing; no loop runs out.
pub read_blk64_lem :
    {W : Type 0} {ch : Channel W} {size : ℕ} {content : W → Content} {io : BlockIo W}
    (m : Machine W) (block : ℕ) (count : ℤ)
    → Serves ch size content io
    → block * ch.block_size + byte_count ch.block_size count ≤ size
    → read_blk64 ch block count m
      ≡ (ok (slice (content m.disk) (block * ch.block_size) (byte_count ch.block_size count)), m)
unfolding read_blk64 read_byte
read_blk64_lem {ch} m block (pos count) serves inside =
    read_blocks-ok serves m block count (record {
      off_aligned = mul-mod_left block ch.block_size;
      len_aligned = mul-mod_left count ch.block_size;
      inside = inside;
    })
read_blk64_lem {ch} m block (negsuc count) serves inside =
    let start : block * ch.block_size < 2 ^ 64 = omega (arith, serves.small) in
    rw (reader-eq serves m, mod-eq_of_lt start)
      (read_loop-ok serves m (suc count) (block * ch.block_size) (suc count) (omega arith) inside)
