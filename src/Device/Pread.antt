-- ===== src/Device/Pread.antt =====
-- `fskit_pread`: a read of any range of bytes, in requests of whole blocks.
pub mod Refines
pub mod Safety
use usbrw.Base.{
  ℕ, ◌+◌, ◌-◌, ◌%◌, ◌^◌, Bool, not, ◌||◌, ◌&&◌, List, [], ◌++◌, none, some, bit_and, ltb, leb, ◌==◌,
  if◌then◌else◌, is_some, take, drop,
}
use usbrw.Base.Int.{ℤ, is_zero, is_neg, to_nat}
use usbrw.Bridge.{BlockIo, ok, fail, fault, Call, pure, fail_with, ◌>>=◌, einval}
use usbrw.Device.{Device, bit_clear, align_quantum, clamp_end, head_length, call_read}

module _ {W : Type 0} where
  -- Each part returns where the next begins, and what it put into the buffer.
  unfoldable pub read_head : BlockIo W → (al cur end : ℕ) → Call W (ℕ × List ℕ)
  read_head io al cur end =
      let base = bit_clear cur (al - 1) in
      let n = head_length al cur end in
      if bit_and cur (al - 1) == 0 then pure (cur, []) else do
        tmp ← call_read io "pread-head" base al
        pure (cur + n, take n (drop (cur - base) tmp))

  unfoldable pub read_mid : BlockIo W → (al cur end : ℕ) → Call W (ℕ × List ℕ)
  read_mid io al cur end =
      let mid = bit_clear (end - cur) (al - 1) in
      if mid == 0
      then pure (cur, [])
      else do bytes ← call_read io "pread-mid" cur mid; pure (cur + mid, bytes)

  unfoldable pub read_tail : BlockIo W → (al cur end : ℕ) → Call W (List ℕ)
  read_tail io al cur end =
      if not (ltb cur end)
      then pure []
      else do tmp ← call_read io "pread-tail" cur al; pure (take (end - cur) tmp)

  -- The count that is returned, and the bytes that are in the buffer.
  unfoldable pub read_range : BlockIo W → (al off end : ℕ) → Call W (ℕ × List ℕ)
  read_range io al off end =
      if (bit_and off (al - 1) == 0) && (bit_and end (al - 1) == 0)
      then (do bytes ← call_read io "pread" off (end - off); pure (end - off, bytes))
      else do
        (cur, head) ← read_head io al off end
        (cur, mid) ← read_mid io al cur end
        tail ← read_tail io al cur end
        pure (end - off, head ++ (mid ++ tail))

  unfoldable pub pread_io : BlockIo W → ℤ → ℤ → Call W (ℕ × List ℕ)
  pread_io io count offset =
      let al = align_quantum io.block_size in
      let off = to_nat offset in
      let end = clamp_end io.block_count al off ((off + to_nat count) % 2 ^ 64) in
      if not (is_some io.read)
      then fail_with einval
      else if is_neg count || is_neg offset
      then fail_with einval
      else if is_zero count
      then pure (0, [])
      else if leb end off
      then pure (0, [])
      else read_range io al off end

  unfoldable pub pread : Device W → ℤ → ℤ → Call W (ℕ × List ℕ)
  pread dev count offset m = elim dev.d_private [
    | none ↦ fail_with einval m
    | some io ↦ pread_io io count offset m
  ]
