-- ===== src/Device/Pread/Safety.antt =====
-- What `fskit_pread` does whatever the callbacks are and return.
use usbrw.Base.{ℕ, ◌+◌, ◌%◌, ◌^◌, ◌≡◌, ◌≢◌, ◌⊎◌, refl, arith, inl, inr, Option-cases}
use usbrw.Base.Int.{ℤ, pos, to_nat}
use usbrw.Bridge.{BlockIo, Machine, fail, fault, einval}
use usbrw.Device.{Device, call_read, align_quantum, clamp_end}
use usbrw.Device.Failure.{
  Tells, Explains, pure-Explains, if-Explains, bind-Explains, call_read-Explains,
}
use usbrw.Device.Pread.{read_head, read_mid, read_tail, read_range, pread_io, pread}

-- `fskit_pread` calls no NULL pointer, whatever the device, the request and the callbacks are.
pread_no_fault :
    {W : Type 0} (dev : Device W) (count offset : ℤ) (m : Machine W)
    → (pread dev count offset m).0 ≢ fault
unfolding pread pread_io read_range read_head read_mid read_tail call_read
pread_no_fault dev count offset m h = ground arith

module _ {W : Type 0} (io : BlockIo W) (al : ℕ) where
  read_head-Explains : (cur end : ℕ) → Explains io (read_head io al cur end)
  unfolding read_head
  read_head-Explains cur end =
      if-Explains _ (pure-Explains _)
        (bind-Explains (call_read-Explains io "pread-head" _ al) λ tmp. pure-Explains _)

  read_mid-Explains : (cur end : ℕ) → Explains io (read_mid io al cur end)
  unfolding read_mid
  read_mid-Explains cur end =
      if-Explains _ (pure-Explains _)
        (bind-Explains (call_read-Explains io "pread-mid" cur _) λ bytes. pure-Explains _)

  read_tail-Explains : (cur end : ℕ) → Explains io (read_tail io al cur end)
  unfolding read_tail
  read_tail-Explains cur end =
      if-Explains _ (pure-Explains _)
        (bind-Explains (call_read-Explains io "pread-tail" cur al) λ tmp. pure-Explains _)

  read_range-Explains : (off end : ℕ) → Explains io (read_range io al off end)
  unfolding read_range
  read_range-Explains off end =
      if-Explains _ (bind-Explains (call_read-Explains io "pread" off _) λ bytes. pure-Explains _) (
        bind-Explains (read_head-Explains off end) λ (cur, head).
          bind-Explains (read_mid-Explains cur end)
            λ (cur, mid). bind-Explains (read_tail-Explains cur end) λ tail. pure-Explains _)

-- A failure of `fskit_pread` is explained, whatever the device, the request and the callbacks are:
-- errno is EINVAL and nothing else was changed, or the last message of the log tells the offset, the
-- length and the code of the last call of a callback of the device, the code is not zero, and errno
-- is that code negated.
pub pread_failure :
    {W : Type 0} (dev : Device W) (count offset : ℤ) (m : Machine W)
    → (pread dev count offset m).0 ≡ fail
    → ((pread dev count offset m).1 ≡ record m { errno = pos einval })
      ⊎ Tells dev.d_private (pread dev count offset m).1
unfolding pread pread_io
pread_failure dev count offset m failed = elim (Option-cases dev.d_private) [
  | inl missing ↦ rw missing (inl refl)
  | inr (io, private) ↦
      let al = align_quantum io.block_size in
      let off = to_nat offset in
      let end = clamp_end io.block_count al off ((off + to_nat count) % 2 ^ 64) in
      ground (arith, (read_range-Explains io al off end).explain m)
]
