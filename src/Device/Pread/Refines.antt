-- ===== src/Device/Pread/Refines.antt =====
-- `fskit_pread` over a medium that only takes whole blocks is a read of the bytes asked for.
use usbrw.Base.{
  ℕ, zero, suc, ◌+◌, ◌-◌, ◌%◌, ◌^◌, ◌≤◌, ◌<◌, ◌≡◌, refl, sym, ap, ◌∙◌, ◌⊎◌, inl, inr, min, some,
  is_some, ◌&&◌, List, [], ◌++◌, arith, bit_and, ltb, leb, ◌==◌, Bool-cases, leb→le, not_leb→lt,
  ltb→lt, not_ltb→le, ==→eq,
}
use native.Mathlib.Nat.{add-zero, mod-le}
use usbrw.Base.Int.{pos}
use usbrw.Bytes.{Content, slice, window-slice, slice_at, slice-append, take-slice}
use usbrw.Bridge.{BlockIo, Machine, ok, Outcome}
use usbrw.Device.{head_length, Device, bit_clear, align_quantum, clamp_end}
use usbrw.Device.Align.{FitsDevice, clamp_end-min, align_quantum-IsQuantum, IsQuantum, mask-mod}
use usbrw.Device.Cuts.{
  IsCut, bit_clear-mask, head_length_lem, block-IsRequest, mid-IsRequest, mid-IsCut, tail-IsRequest,
  aligned-IsRequest,
}
use usbrw.Device.Medium.{IsMedium, call_read-ok}
use usbrw.Device.Pread.{read_head, read_mid, read_tail, read_range, pread_io, pread}

-- A part of the read: from `cur` it puts the bytes up to `next` into the buffer.
record Fills {W : Type 0} (c : Content) (al cur end : ℕ) (m : Machine W)
    (run : Outcome (ℕ × List ℕ) × Machine W) : Type 0 where
  count : ℕ
  fills : run ≡ (ok (cur + count, slice c cur count), m)
  cut : IsCut al end (cur + count)

module _ {W : Type 0} {al size : ℕ} {content : W → Content} {io : BlockIo W} (q : IsQuantum al)
    (medium : IsMedium al size content io) (m : Machine W) (cur end : ℕ) (inside : end ≤ size) where
  read_head-Fills : cur < end → Fills (content m.disk) al cur end m (read_head io al cur end m)
  unfolding read_head
  read_head-Fills h = elim (Bool-cases (bit_and cur (al - 1) == 0)) [
    | inl aligned ↦ record {
      count = 0;
      fills = rw aligned (ap (λ (k : ℕ). (ok (k, []), m)) (omega arith));
      cut = (omega arith, inl (rw add-zero (sym (mask-mod q cur) ∙ ==→eq _ _ aligned)));
    }
    | inr partial ↦
        let base = bit_clear cur (al - 1) in
        let n = head_length al cur end in
        let skip : cur - base ≡ cur % al =
          rw (bit_clear-mask q cur) (omega (arith, mod-le cur al)) in
        record {
          count = n;
          fills =
              rw
                (
                  partial,
                  call_read-ok medium "pread-head" m base al
                      (block-IsRequest q medium.whole cur end inside h),
                )
                (ap (λ (bs : List ℕ). (ok (cur + n, bs), m))
                  (window-slice (content m.disk) base al (cur - base) n
                      (omega (arith, skip, (head_length_lem q cur end h).0))
                    ∙ slice_at (content m.disk) (omega (arith, skip, mod-le cur al)) refl));
          cut = (head_length_lem q cur end h).1;
        }
  ]

  read_mid-eq :
      cur ≤ end
      → (cur % al ≡ 0) ⊎ (cur ≡ end)
      → let mid = bit_clear (end - cur) (al - 1) in
        read_mid io al cur end m ≡ (ok (cur + mid, slice (content m.disk) cur mid), m)
  unfolding read_mid
  read_mid-eq h at = elim (Bool-cases (bit_clear (end - cur) (al - 1) == 0)) [
    | inl nothing ↦ rw (==→eq _ _ nothing) (ap (λ (k : ℕ). (ok (k, []), m)) (omega arith))
    | inr some_blocks ↦
        let mid = bit_clear (end - cur) (al - 1) in
        let req = mid-IsRequest q medium.whole cur end inside at (ground arith) in
        rw (some_blocks, call_read-ok medium "pread-mid" m cur mid req) refl
  ]

  read_tail-eq :
      (cur % al ≡ 0) ⊎ (cur ≡ end)
      → end - cur < al
      → read_tail io al cur end m ≡ (ok (slice (content m.disk) cur (end - cur)), m)
  unfolding read_tail
  read_tail-eq at short = elim (Bool-cases (ltb cur end)) [
    | inl more ↦
        let req = tail-IsRequest q medium.whole cur end inside at (ltb→lt cur end more) in
        rw (more, call_read-ok medium "pread-tail" m cur al req)
          (ap (λ (bs : List ℕ). (ok bs, m))
            (take-slice (content m.disk) cur (end - cur) al (omega arith)))
    | inr done ↦ rw done (
        ap (λ (bs : List ℕ). (ok bs, m))
          (slice_at (content m.disk) {m = 0} refl (omega (arith, not_ltb→le cur end done))))
  ]

module _ {W : Type 0} {al size : ℕ} {content : W → Content} {io : BlockIo W} (q : IsQuantum al)
    (medium : IsMedium al size content io) (m : Machine W) (off end : ℕ) (inside : end ≤ size)
    (some_bytes : off < end) where
  pieces_eq :
      (n mid : ℕ)
      → off + n + mid ≤ end
      → let c = content m.disk in
        slice c off n ++ (slice c (off + n) mid ++ slice c (off + n + mid) (end - (off + n + mid)))
        ≡ slice c off (end - off)
  pieces_eq n mid h =
      let c = content m.disk in
      ap (λ (bs : List ℕ). slice c off n ++ bs) (slice-append c (off + n) mid _)
      ∙ slice-append c off n _
      ∙ slice_at c refl (omega arith)

  read_range-eq :
      read_range io al off end m ≡ (ok (end - off, slice (content m.disk) off (end - off)), m)
  unfolding read_range
  read_range-eq = elim (Bool-cases ((bit_and off (al - 1) == 0) && (bit_and end (al - 1) == 0))) [
    | inl aligned ↦
        let req = aligned-IsRequest q off end some_bytes inside aligned in
        rw (aligned, call_read-ok medium "pread" m off (end - off) req) refl
    | inr ragged ↦
        let head = read_head-Fills q medium m off end inside some_bytes in
        let next = off + head.count in
        let mid = bit_clear (end - next) (al - 1) in
        let cut = mid-IsCut q medium.whole next end inside head.cut.0 head.cut.1 in
        rw
          (
            ragged,
            head.fills,
            read_mid-eq q medium m next end inside head.cut.0 head.cut.1,
            read_tail-eq q medium m (next + mid) end inside cut.0.1 cut.1,
          )
          (ap (λ (bs : List ℕ). (ok (end - off, bs), m)) (pieces_eq head.count mid cut.0.0))
  ]

-- What a read of `k` bytes at `off` returns.
abbrev answer : {W : Type 0} → Content → ℕ → Machine W → ℕ → Outcome (ℕ × List ℕ) × Machine W
answer c off m k = (ok (k, slice c off k), m)

module _ {W : Type 0} {size off : ℕ} {content : W → Content} {io : BlockIo W} (m : Machine W)
    (medium : IsMedium (align_quantum io.block_size) size content io) where
  pread_io-eq :
      (n : ℕ)
      → FitsDevice io.block_count (align_quantum io.block_size) size off n
      → pread_io io (pos n) (pos off) m
        ≡ (ok (min n (size - off), slice (content m.disk) off (min n (size - off))), m)
  unfolding pread_io
  pread_io-eq zero fits =
      rw (ap is_some medium.read_eq) (ap (answer (content m.disk) off m) {x = 0} (omega arith))
  pread_io-eq (suc n) fits =
      let al = align_quantum io.block_size in
      let end = clamp_end io.block_count al off ((off + suc n) % 2 ^ 64) in
      let known = clamp_end-min fits in
      rw (ap is_some medium.read_eq) (elim (Bool-cases (leb end off)) [
        | inl outside ↦ rw outside (
            ap (answer (content m.disk) off m) {x = 0}
              (omega (arith, known.0, leb→le end off outside)))
        | inr inside ↦
            let more = not_leb→lt end off inside in
            rw inside (
              read_range-eq (align_quantum-IsQuantum io.block_size) medium m off end (known.1 more)
                more
              ∙ ap (answer (content m.disk) off m) known.0)
      ])

-- `fskit_pread` on a medium that only takes whole blocks: it returns min(count, size - offset)
-- and puts exactly those bytes into the buffer, for every offset and count, aligned or not; the
-- medium, errno and the log stay as they were.
pub pread_lem :
    {W : Type 0} {size n off : ℕ} {content : W → Content} {io : BlockIo W} (dev : Device W)
    (m : Machine W)
    → dev.d_private ≡ some io
    → IsMedium (align_quantum io.block_size) size content io
    → FitsDevice io.block_count (align_quantum io.block_size) size off n
    → pread dev (pos n) (pos off) m
      ≡ (ok (min n (size - off), slice (content m.disk) off (min n (size - off))), m)
unfolding pread
pread_lem {n} dev m private medium fits = rw private (pread_io-eq m medium n fits)
