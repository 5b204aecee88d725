-- ===== src/Ext/Channel/Writes.antt =====
-- The writes of the io_manager put the bytes given, counted in blocks or in bytes.
use usbrw.Base.{
  ℕ, zero, suc, ◌+◌, ◌-◌, ◌*◌, ◌/◌, ◌%◌, ◌^◌, ◌≤◌, ◌<◌, ◌≡◌, refl, sym, subst, ap, ◌∙◌, false, some,
  List, [], arith, length, take, drop, length-take, length-drop, take_of_length,
}
use native.Mathlib.Nat.{mod-eq_of_lt, div-add-mod', mul-mod_left}
use usbrw.Base.Int.{ℤ, pos, negsuc}
use usbrw.Bytes.{
  Content, slice, overlay, splice, overlay-slice, overlay-splice, overlay-take, length-splice,
  length-slice,
}
use usbrw.Bridge.{BlockIo, Machine}
use usbrw.Device.Medium.{IsRequest}
use usbrw.Ext.{Result, ok}
use usbrw.Ext.Channel.{
  Channel, writer_of, is_readonly, write_blocks, round_length, write_loop, write_byte, write_blk64,
}
use usbrw.Ext.Channel.Reads.{Serves, read_blocks-ok, one_block, round_lem, byte_count}

-- A call that succeeds, having put `bs` at `off` and changed nothing else.
pub record Stores {W : Type 0} (content : W → Content) (off : ℕ) (bs : List ℕ) (m : Machine W)
    (run : Result (Unit {0}) × Machine W) : Type 0 where
  pub disk : W
  pub returns : run ≡ (ok tt, record m { disk = disk })
  pub stores : content disk ≡ overlay (content m.disk) off bs

module _ {W : Type 0} {ch : Channel W} {size : ℕ} {content : W → Content} {io : BlockIo W}
    (serves : Serves ch size content io) (writable : io.readonly ≡ false) where
  writer-eq : writer_of ch ≡ some serves.medium.writer
  unfolding writer_of
  writer-eq = rw serves.attached serves.medium.write_eq

  writable_eq : is_readonly ch ≡ false
  unfolding is_readonly
  writable_eq = rw serves.attached writable

  write_blocks-Stores :
      (m : Machine W) (block count : ℕ) (bytes : List ℕ)
      → IsRequest ch.block_size size (block * ch.block_size) (count * ch.block_size)
      → count * ch.block_size ≤ length bytes
      → Stores content
          (block * ch.block_size)
          (take (count * ch.block_size) bytes)
          m
          (write_blocks ch block count bytes m)
  unfolding write_blocks
  write_blocks-Stores m block count bytes req h =
      let off = block * ch.block_size in
      let bs = take (count * ch.block_size) bytes in
      let start : off < 2 ^ 64 = omega (arith, req.inside, serves.small) in
      let fits = subst (IsRequest ch.block_size size off) (sym (length-take _ bytes h)) req in
      record {
        disk = (serves.medium.writer m.disk off bs).1;
        returns =
            rw
              (
                writer-eq,
                writable_eq,
                mod-eq_of_lt start,
                serves.medium.write_ok m.disk off bs fits,
              )
              refl;
        stores = serves.medium.write_lem m.disk off bs fits;
      }

  -- A round: the block that was read is put back with the bytes of the round in it.
  round-Stores :
      (m : Machine W) (offset n : ℕ) (src : List ℕ)
      → offset < size
      → offset % ch.block_size + n ≤ ch.block_size
      → n ≤ length src
      → let base = offset / ch.block_size * ch.block_size in
        let block =
          splice
            (slice (content m.disk) base (1 * ch.block_size))
            (offset % ch.block_size)
            (take n src) in
        Stores content offset (take n src) m (write_blocks ch (offset / ch.block_size) 1 block m)
  round-Stores m offset n src inside fits enough =
      let c = content m.disk in
      let b = ch.block_size in
      let base = offset / b * b in
      let skip = offset % b in
      let patch = take n src in
      let old = slice c base (1 * b) in
      let patch_size : length patch ≡ n = length-take n src enough in
      let room : skip + length patch ≤ 1 * b = omega (arith, patch_size) in
      let block_size : length (splice old skip patch) ≡ 1 * b =
        length-splice old skip patch (omega (arith, room, length-slice c base (1 * b)))
        ∙ length-slice c base (1 * b) in
      let put =
        write_blocks-Stores m (offset / b) 1 (splice old skip patch)
          (one_block serves m offset inside) (omega (arith, block_size)) in
      record {
        disk = put.disk;
        returns = put.returns;
        stores =
            put.stores
            ∙ ap (overlay c base) (take_of_length (1 * b) _ block_size)
            ∙ overlay-splice c base (1 * b) skip patch room
            ∙ ap (λ (k : ℕ). overlay c k patch) (div-add-mod' offset b);
      }

  nothing : (m : Machine W) (off : ℕ) → Stores content off [] m (ok tt, m)
  nothing m off = record {
    disk = m.disk;
    returns = refl;
    stores = sym (overlay-slice (content m.disk) off 0);
  }

  write_loop-Stores :
      (m : Machine W) (fuel offset left : ℕ) (src : List ℕ)
      → left ≤ fuel
      → offset + left ≤ size
      → left ≤ length src
      → Stores content offset (take left src) m (write_loop fuel ch offset left src m)
  unfolding write_loop
  write_loop-Stores m zero offset zero src enough inside h = nothing m offset
  write_loop-Stores m (suc fuel) offset zero src enough inside h = nothing m offset
  write_loop-Stores m zero offset (suc left) src enough inside h = elim enough [ ]
  write_loop-Stores m (suc fuel) offset (suc left) src enough inside h =
      let b = ch.block_size in
      let n = round_length ch offset (suc left) in
      let round = round_lem serves m offset (suc left) (omega arith) in
      let next : offset + n < 2 ^ 64 = omega (arith, round.1, serves.small) in
      let put = round-Stores m offset n src (omega arith) round.2 (omega (arith, round.1)) in
      let rest =
        write_loop-Stores (record m { disk = put.disk }) fuel (offset + n) (suc left - n)
          (drop n src) (omega (arith, round.0)) (omega (arith, round.1))
          (omega (arith, length-drop n src)) in
      record {
        disk = rest.disk;
        returns =
            rw
              (
                read_blocks-ok serves m (offset / b) 1 (one_block serves m offset (omega arith)),
                put.returns,
                mod-eq_of_lt next,
                rest.returns,
              )
              refl;
        stores =
            rest.stores
            ∙ ap (λ (d : Content). overlay d (offset + n) (take (suc left - n) (drop n src)))
                put.stores
            ∙ overlay-take (content m.disk) offset n (suc left - n) src (omega (arith, round.1))
            ∙ ap (λ (k : ℕ). overlay (content m.disk) offset (take k src)) {y = suc left}
                (omega (arith, round.1));
      }

-- `ext_io_write_blk64` on a writable device puts exactly the bytes that the count stands for, from
-- the block's first byte on, whatever the sign of the count; every other byte of the device stays
-- as it was, and no loop runs out.
pub write_blk64_lem :
    {W : Type 0} {ch : Channel W} {size : ℕ} {content : W → Content} {io : BlockIo W}
    (m : Machine W) (block : ℕ) (count : ℤ) (src : List ℕ)
    → Serves ch size content io
    → io.readonly ≡ false
    → block * ch.block_size + byte_count ch.block_size count ≤ size
    → byte_count ch.block_size count ≤ length src
    → Stores content
        (block * ch.block_size)
        (take (byte_count ch.block_size count) src)
        m
        (write_blk64 ch block count src m)
unfolding write_blk64 write_byte
write_blk64_lem {ch} m block (pos count) src serves writable inside enough =
    write_blocks-Stores serves writable m block count src
      (record {
        off_aligned = mul-mod_left block ch.block_size;
        len_aligned = mul-mod_left count ch.block_size;
        inside = inside;
      })
      enough
write_blk64_lem {ch} m block (negsuc count) src serves writable inside enough =
    let start : block * ch.block_size < 2 ^ 64 = omega (arith, serves.small) in
    rw (writer-eq serves writable, writable_eq serves writable, mod-eq_of_lt start)
      (write_loop-Stores serves writable m (suc count) (block * ch.block_size) (suc count) src
        (omega arith) inside enough)
