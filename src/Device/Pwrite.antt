-- ===== src/Device/Pwrite.antt =====
-- `fskit_pwrite`: a write of any range of bytes, in requests of whole blocks; a partial block is
-- read, patched and written back.
pub mod Refines
pub mod Safety
use usbrw.Base.{
  ℕ, ◌+◌, ◌-◌, ◌%◌, ◌^◌, Bool, not, ◌||◌, ◌&&◌, List, none, some, bit_and, ltb, leb, ◌==◌,
  if◌then◌else◌, is_some, take, drop,
}
use usbrw.Base.Int.{ℤ, is_zero, is_neg, to_nat}
use usbrw.Bytes.{splice}
use usbrw.Bridge.{BlockIo, ok, fail, fault, Call, pure, fail_with, ◌>>=◌, ◌>>◌, einval, erofs}
use usbrw.Device.{Device, bit_clear, align_quantum, clamp_end, head_length, call_read, call_write}

module _ {W : Type 0} where
  -- Each part returns where the next begins, and the bytes of `src` that are left.
  unfoldable pub write_head : BlockIo W → (al cur end : ℕ) → List ℕ → Call W (ℕ × List ℕ)
  write_head io al cur end src =
      let base = bit_clear cur (al - 1) in
      let n = head_length al cur end in
      if bit_and cur (al - 1) == 0 then pure (cur, src) else do
        tmp ← call_read io "pwrite-head-r" base al
        call_write io "pwrite-head-w" base (splice tmp (cur - base) (take n src)) al
        pure (cur + n, drop n src)

  unfoldable pub write_mid : BlockIo W → (al cur end : ℕ) → List ℕ → Call W (ℕ × List ℕ)
  write_mid io al cur end src =
      let mid = bit_clear (end - cur) (al - 1) in
      if mid == 0
      then pure (cur, src)
      else do call_write io "pwrite-mid" cur src mid; pure (cur + mid, drop mid src)

  unfoldable pub write_tail : BlockIo W → (al cur end : ℕ) → List ℕ → Call W (Unit {0})
  write_tail io al cur end src = if not (ltb cur end) then pure tt else do
    tmp ← call_read io "pwrite-tail-r" cur al
    call_write io "pwrite-tail-w" cur (splice tmp 0 (take (end - cur) src)) al

  unfoldable pub write_range : BlockIo W → (al off end : ℕ) → List ℕ → Call W ℕ
  write_range io al off end src =
      if (bit_and off (al - 1) == 0) && (bit_and end (al - 1) == 0)
      then (do call_write io "pwrite" off src (end - off); pure (end - off))
      else do
        (cur, src) ← write_head io al off end src
        (cur, src) ← write_mid io al cur end src
        write_tail io al cur end src
        pure (end - off)

  unfoldable pub pwrite_io : BlockIo W → List ℕ → ℤ → ℤ → Call W ℕ
  pwrite_io io src count offset =
      let al = align_quantum io.block_size in
      let off = to_nat offset in
      let end = clamp_end io.block_count al off ((off + to_nat count) % 2 ^ 64) in
      if not (is_some io.write)
      then fail_with einval
      else if is_neg count || is_neg offset
      then fail_with einval
      else if is_zero count
      then pure 0
      else if io.readonly
      then fail_with erofs
      else if leb end off
      then pure 0
      else write_range io al off end src

  unfoldable pub pwrite : Device W → List ℕ → ℤ → ℤ → Call W ℕ
  pwrite dev src count offset m = elim dev.d_private [
    | none ↦ fail_with einval m
    | some io ↦ pwrite_io io src count offset m
  ]
