-- ===== src/Device/Pwrite/Refines.antt =====
-- `fskit_pwrite` over a medium that only takes whole blocks is a write of the bytes given.
use usbrw.Base.{
  ℕ, zero, suc, ◌+◌, ◌-◌, ◌%◌, ◌^◌, ◌≤◌, ◌<◌, ◌≡◌, refl, sym, ap, ap₂, ◌∙◌, ◌⊎◌, inl, inr, min,
  some, is_some, false, ◌&&◌, List, [], arith, bit_and, ltb, leb, ◌==◌, Bool-cases, leb→le,
  not_leb→lt, ltb→lt, not_ltb→le, ==→eq, length, take, drop, String, take_of_length, drop-drop,
  ◌≡⟨◌⟩◌, ◌∎, length-take, length-drop,
}
use native.Mathlib.Nat.{add-zero, mod-le}
use usbrw.Base.Int.{pos}
use usbrw.Bytes.{
  Content, slice, overlay, splice, overlay-slice, overlay-splice, overlay-take, length-splice,
  length-slice,
}
use usbrw.Bridge.{BlockIo, Machine, ok, Outcome}
use usbrw.Device.{head_length, Device, bit_clear, align_quantum, clamp_end, call_write}
use usbrw.Device.Align.{FitsDevice, clamp_end-min, align_quantum-IsQuantum, IsQuantum, mask-mod}
use usbrw.Device.Cuts.{
  IsCut, bit_clear-mask, head_length_lem, block-IsRequest, mid-IsRequest, mid-IsCut, tail-IsRequest,
  aligned-IsRequest,
}
use usbrw.Device.Medium.{IsRequest, IsMedium, Puts, call_read-ok, call_write-Puts}
use usbrw.Device.Pwrite.{write_head, write_mid, write_tail, write_range, pwrite_io, pwrite}

-- Nothing is put, and the disk is as it was.
Puts-nothing :
    {W A : Type 0} {content : W → Content} (off : ℕ) (a : A) (m : Machine W)
    → Puts content off [] a m (ok a, m)
Puts-nothing {content} off a m = record {
  disk = m.disk;
  returns = refl;
  puts = sym (overlay-slice (content m.disk) off 0);
}

module _ {W : Type 0} {al size : ℕ} {content : W → Content} {io : BlockIo W} (q : IsQuantum al)
    (medium : IsMedium al size content io) (m : Machine W) (cur end : ℕ) (src : List ℕ)
    (inside : end ≤ size) (enough : end - cur ≤ length src) where
  -- A block that was read is put back with the first `n` bytes of the source from `skip` on.
  patch_block :
      (base skip n : ℕ) (op : String)
      → IsRequest al size base al
      → skip + n ≤ al
      → n ≤ length src
      → base + skip ≡ cur
      → let block = splice (slice (content m.disk) base al) skip (take n src) in
        Puts content cur (take n src) tt m (call_write io op base block al m)
  patch_block base skip n op req fits short at =
      let c = content m.disk in
      let patch = take n src in
      let block = splice (slice c base al) skip patch in
      let patch_size : length patch ≡ n = length-take n src short in
      let room : skip + length patch ≤ al = omega (arith, patch_size) in
      let block_size : length block ≡ al =
        length-splice (slice c base al) skip patch (omega (arith, room, length-slice c base al))
        ∙ length-slice c base al in
      let put = call_write-Puts medium op m base al block req (omega (arith, block_size)) in
      record {
        disk = put.disk;
        returns = put.returns;
        puts =
            put.puts
            ∙ ap (overlay c base) (take_of_length al block block_size)
            ∙ overlay-splice c base al skip patch room
            ∙ ap (λ (k : ℕ). overlay c k patch) at;
      }

  -- The first part of the write: what it takes from the source, and where it stops.
  record Head (run : Outcome (ℕ × List ℕ) × Machine W) : Type 0 where
    count : ℕ
    put : Puts content cur (take count src) (cur + count, drop count src) m run
    cut : IsCut al end (cur + count)

  write_head-Head : cur < end → Head (write_head io al cur end src m)
  unfolding write_head
  write_head-Head h = elim (Bool-cases (bit_and cur (al - 1) == 0)) [
    | inl aligned ↦ record {
      count = 0;
      put = rw (aligned, add-zero) (Puts-nothing cur (cur, src) m);
      cut = (omega arith, inl (rw add-zero (sym (mask-mod q cur) ∙ ==→eq _ _ aligned)));
    }
    | inr partial ↦
        let base = bit_clear cur (al - 1) in
        let n = head_length al cur end in
        let skip : cur - base ≡ cur % al =
          rw (bit_clear-mask q cur) (omega (arith, mod-le cur al)) in
        let req = block-IsRequest q medium.whole cur end inside h in
        let fits = head_length_lem q cur end h in
        let patched =
          patch_block base (cur - base) n "pwrite-head-w" req (omega (arith, skip, fits.0))
            (omega (arith, fits.1.0)) (omega (arith, skip, mod-le cur al)) in
        record {
          count = n;
          put = record {
            disk = patched.disk;
            returns =
                rw (partial, call_read-ok medium "pwrite-head-r" m base al req, patched.returns)
                  refl;
            puts = patched.puts;
          };
          cut = fits.1;
        }
  ]

  write_mid-Puts :
      cur ≤ end
      → (cur % al ≡ 0) ⊎ (cur ≡ end)
      → let mid = bit_clear (end - cur) (al - 1) in
        Puts content cur (take mid src) (cur + mid, drop mid src) m (write_mid io al cur end src m)
  unfolding write_mid
  write_mid-Puts h at = elim (Bool-cases (bit_clear (end - cur) (al - 1) == 0)) [
    | inl nothing ↦ rw (==→eq _ _ nothing, add-zero) (Puts-nothing cur (cur, src) m)
    | inr some_blocks ↦
        let mid = bit_clear (end - cur) (al - 1) in
        let req = mid-IsRequest q medium.whole cur end inside at (ground arith) in
        let put = call_write-Puts medium "pwrite-mid" m cur mid src req (omega (arith, mod-le)) in
        record { disk = put.disk; returns = rw (some_blocks, put.returns) refl; puts = put.puts }
  ]

  write_tail-Puts :
      (cur % al ≡ 0) ⊎ (cur ≡ end)
      → end - cur < al
      → Puts content cur (take (end - cur) src) tt m (write_tail io al cur end src m)
  unfolding write_tail
  write_tail-Puts at short = elim (Bool-cases (ltb cur end)) [
    | inl more ↦
        let req = tail-IsRequest q medium.whole cur end inside at (ltb→lt cur end more) in
        let patched =
          patch_block cur 0 (end - cur) "pwrite-tail-w" req (omega arith) enough (omega arith) in
        record {
          disk = patched.disk;
          returns =
              rw (more, call_read-ok medium "pwrite-tail-r" m cur al req, patched.returns) refl;
          puts = patched.puts;
        }
    | inr done ↦
        let none_left : end - cur ≡ 0 = omega (arith, not_ltb→le cur end done) in
        rw (done, none_left) (Puts-nothing cur tt m)
  ]

module _ {W : Type 0} {al size : ℕ} {content : W → Content} {io : BlockIo W} (q : IsQuantum al)
    (medium : IsMedium al size content io) (m : Machine W) (off end : ℕ) (src : List ℕ)
    (inside : end ≤ size) (enough : end - off ≤ length src) (some_bytes : off < end) where
  pieces_put :
      (c : Content) (n mid : ℕ)
      → off + n + mid ≤ end
      → let head = overlay c off (take n src) in
        let middle = overlay head (off + n) (take mid (drop n src)) in
        overlay middle (off + n + mid) (take (end - (off + n + mid)) (drop mid (drop n src)))
        ≡ overlay c off (take (end - off) src)
  pieces_put c n mid h =
      overlay (overlay (overlay c off (take n src)) (off + n) (take mid (drop n src)))
        (off + n + mid) (take rest (drop mid (drop n src)))
      ≡⟨ ap (λ d. overlay d (off + n + mid) (take rest (drop mid (drop n src))))
          (overlay-take c off n mid src (omega arith)) ⟩
        overlay (overlay c off (take (n + mid) src)) (off + n + mid)
          (take rest (drop mid (drop n src)))
      ≡⟨ ap₂ (λ k bs. overlay (overlay c off (take (n + mid) src)) k (take rest bs)) (omega arith)
          (drop-drop n mid src) ⟩
        overlay (overlay c off (take (n + mid) src)) (off + (n + mid))
          (take rest (drop (n + mid) src))
      ≡⟨ overlay-take c off (n + mid) rest src (omega arith) ⟩
        overlay c off (take (n + mid + rest) src)
      ≡⟨ ap (λ k. overlay c off (take k src)) (omega arith) ⟩ overlay c off (take (end - off) src) ∎
    where
      rest : ℕ
      rest = end - (off + n + mid)

  write_range-Puts :
      Puts content off (take (end - off) src) (end - off) m (write_range io al off end src m)
  unfolding write_range
  write_range-Puts =
      elim (Bool-cases ((bit_and off (al - 1) == 0) && (bit_and end (al - 1) == 0))) [
        | inl aligned ↦
            let req = aligned-IsRequest q off end some_bytes inside aligned in
            let put = call_write-Puts medium "pwrite" m off (end - off) src req enough in
            record { disk = put.disk; returns = rw (aligned, put.returns) refl; puts = put.puts }
        | inr ragged ↦
            let head = write_head-Head q medium m off end src inside enough some_bytes in
            let n = head.count in
            let next = off + n in
            let m1 = record m { disk = head.put.disk } in
            let mid = bit_clear (end - next) (al - 1) in
            let middle =
              write_mid-Puts q medium m1 next end (drop n src) inside
                (omega (arith, length-drop n src)) head.cut.0 head.cut.1 in
            let cut = mid-IsCut q medium.whole next end inside head.cut.0 head.cut.1 in
            let m2 = record m { disk = middle.disk } in
            let tail =
              write_tail-Puts q medium m2 (next + mid) end (drop mid (drop n src)) inside
                (omega (arith, length-drop n src, length-drop mid (drop n src))) cut.0.1 cut.1 in
            record {
              disk = tail.disk;
              returns = rw (ragged, head.put.returns, middle.returns, tail.returns) refl;
              puts =
                  tail.puts
                  ∙ ap
                      (λ d.
                        overlay d (next + mid) (take (end - (next + mid)) (drop mid (drop n src))))
                      (middle.puts ∙ ap (λ d. overlay d next (take mid (drop n src))) head.put.puts)
                  ∙ pieces_put (content m.disk) n mid cut.0.0;
            }
      ]

module _ {W : Type 0} {size off : ℕ} {content : W → Content} {io : BlockIo W} (m : Machine W)
    (medium : IsMedium (align_quantum io.block_size) size content io)
    (writable : io.readonly ≡ false) (src : List ℕ) where
  pwrite_io-Puts :
      (n : ℕ)
      → n ≤ length src
      → FitsDevice io.block_count (align_quantum io.block_size) size off n
      → let k = min n (size - off) in
        Puts content off (take k src) k m (pwrite_io io src (pos n) (pos off) m)
  unfolding pwrite_io
  pwrite_io-Puts zero h fits =
      let zero_bytes : min 0 (size - off) ≡ 0 = omega arith in
      rw (ap is_some medium.write_eq, zero_bytes) (Puts-nothing off 0 m)
  pwrite_io-Puts (suc n) h fits =
      let al = align_quantum io.block_size in
      let end = clamp_end io.block_count al off ((off + suc n) % 2 ^ 64) in
      let known = clamp_end-min fits in
      simp (ap is_some medium.write_eq, writable)
        (elim (Bool-cases (leb end off)) [
          | inl outside ↦
              let zero_bytes : min (suc n) (size - off) ≡ 0 =
                omega (arith, known.0, leb→le end off outside) in
              rw (outside, zero_bytes) (Puts-nothing off 0 m)
          | inr inside ↦
              let more = not_leb→lt end off inside in
              rw (inside, sym known.0)
                (write_range-Puts (align_quantum-IsQuantum io.block_size) medium m off end src
                  (known.1 more) (omega (arith, known.0)) more)
        ])

-- `fskit_pwrite` on a medium that only takes whole blocks: with no write failing, it returns
-- min(count, size - offset), and the medium holds that many bytes of the buffer at the offset
-- and is as it was at every other byte, for every offset and count, aligned or not.
pub pwrite_lem :
    {W : Type 0} {size n off : ℕ} {content : W → Content} {io : BlockIo W} (dev : Device W)
    (m : Machine W) (src : List ℕ)
    → dev.d_private ≡ some io
    → IsMedium (align_quantum io.block_size) size content io
    → io.readonly ≡ false
    → n ≤ length src
    → FitsDevice io.block_count (align_quantum io.block_size) size off n
    → let k = min n (size - off) in
      Puts content off (take k src) k m (pwrite dev src (pos n) (pos off) m)
unfolding pwrite
pwrite_lem {n} dev m src private medium writable h fits =
    rw private (pwrite_io-Puts m medium writable src n h fits)
