-- ===== src/Device/Pwrite/Safety.antt =====
-- What `fskit_pwrite` does whatever the callbacks are and return.
use usbrw.Base.{
  ℕ, ◌+◌, ◌%◌, ◌^◌, ◌≡◌, ◌≢◌, ◌⊎◌, refl, true, List, some, is_some, arith, inl, inr, Option-cases,
}
use usbrw.Base.Int.{ℤ, pos, to_nat}
use usbrw.Bridge.{BlockIo, Machine, fail, fault, einval, erofs}
use usbrw.Device.{Device, call_write, call_read, align_quantum, clamp_end}
use usbrw.Device.Failure.{
  Tells, Explains, pure-Explains, if-Explains, bind-Explains, call_read-Explains,
  call_write-Explains,
}
use usbrw.Device.Pwrite.{write_head, write_mid, write_tail, write_range, pwrite_io, pwrite}

-- `fskit_pwrite` leaves the medium of a read-only device as it was, whatever the request and the
-- callbacks are.
pub pwrite_readonly :
    {W : Type 0} {io : BlockIo W} (dev : Device W) (src : List ℕ) (count offset : ℤ) (m : Machine W)
    → dev.d_private ≡ some io
    → io.readonly ≡ true
    → (pwrite dev src count offset m).1.disk ≡ m.disk
unfolding pwrite pwrite_io
pwrite_readonly dev src count offset m private guarded = rw private (ground arith)

-- `fskit_pwrite` calls no NULL pointer, if the read callback is there: it patches partial blocks
-- without looking whether it can read them.
pwrite_no_fault :
    {W : Type 0} {io : BlockIo W} (dev : Device W) (src : List ℕ) (count offset : ℤ) (m : Machine W)
    → dev.d_private ≡ some io
    → is_some io.read ≡ true
    → (pwrite dev src count offset m).0 ≢ fault
unfolding pwrite pwrite_io write_range write_head write_mid write_tail call_read call_write
pwrite_no_fault dev src count offset m private readable h = ground arith

module _ {W : Type 0} (io : BlockIo W) (al : ℕ) where
  write_head-Explains : (cur end : ℕ) (src : List ℕ) → Explains io (write_head io al cur end src)
  unfolding write_head
  write_head-Explains cur end src = if-Explains _ (pure-Explains _) (
      bind-Explains (call_read-Explains io "pwrite-head-r" _ al)
        λ tmp. bind-Explains (call_write-Explains io "pwrite-head-w" _ _ al) λ _. pure-Explains _)

  write_mid-Explains : (cur end : ℕ) (src : List ℕ) → Explains io (write_mid io al cur end src)
  unfolding write_mid
  write_mid-Explains cur end src =
      if-Explains _ (pure-Explains _)
        (bind-Explains (call_write-Explains io "pwrite-mid" cur src _) λ _. pure-Explains _)

  write_tail-Explains : (cur end : ℕ) (src : List ℕ) → Explains io (write_tail io al cur end src)
  unfolding write_tail
  write_tail-Explains cur end src = if-Explains _ (pure-Explains tt) (
      bind-Explains (call_read-Explains io "pwrite-tail-r" cur al)
        λ tmp. call_write-Explains io "pwrite-tail-w" cur _ al)

  write_range-Explains : (off end : ℕ) (src : List ℕ) → Explains io (write_range io al off end src)
  unfolding write_range
  write_range-Explains off end src =
      if-Explains _ (bind-Explains (call_write-Explains io "pwrite" off src _) λ _. pure-Explains _)
        (bind-Explains (write_head-Explains off end src) λ (cur, src).
          bind-Explains (write_mid-Explains cur end src)
            λ (cur, src). bind-Explains (write_tail-Explains cur end src) λ _. pure-Explains _)

-- A failure of `fskit_pwrite` is explained, whatever the device, the request and the callbacks
-- are: errno is EINVAL or EROFS and nothing else was changed, or the last message of the log tells
-- the offset, the length and the code of the last call of a callback of the device, the code is not
-- zero, and errno is that code negated.
pub pwrite_failure :
    {W : Type 0} (dev : Device W) (src : List ℕ) (count offset : ℤ) (m : Machine W)
    → (pwrite dev src count offset m).0 ≡ fail
    → ((pwrite dev src count offset m).1 ≡ record m { errno = pos einval })
      ⊎ ((pwrite dev src count offset m).1 ≡ record m { errno = pos erofs })
      ⊎ Tells dev.d_private (pwrite dev src count offset m).1
unfolding pwrite pwrite_io
pwrite_failure dev src count offset m failed = elim (Option-cases dev.d_private) [
  | inl missing ↦ rw missing (inl refl)
  | inr (io, private) ↦
      let al = align_quantum io.block_size in
      let off = to_nat offset in
      let end = clamp_end io.block_count al off ((off + to_nat count) % 2 ^ 64) in
      ground (arith, (write_range-Explains io al off end src).explain m)
]
