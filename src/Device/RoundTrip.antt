-- ===== src/Device/RoundTrip.antt =====
-- A read after a write.
use usbrw.Base.{
  ℕ, ◌-◌, ◌≤◌, ◌≡◌, refl, ap, ◌∙◌, false, some, List, arith, length, take, length-take, min, sym,
}
use usbrw.Base.Int.{pos}
use usbrw.Bytes.{Content, slice, overlay, slice-overlay}
use usbrw.Bridge.{BlockIo, Machine, ok}
use usbrw.Device.{Device, align_quantum}
use usbrw.Device.Align.{FitsDevice}
use usbrw.Device.Medium.{IsMedium}
use usbrw.Device.Pread.{pread}
use usbrw.Device.Pread.Refines.{pread_lem}
use usbrw.Device.Pwrite.{pwrite}
use usbrw.Device.Pwrite.Refines.{pwrite_lem}

-- On a writable medium of whole blocks, `fskit_pread` of a range that `fskit_pwrite` has just
-- written returns what was written, as far as the device reaches, and the same count as the write;
-- range and medium may be aligned or not.
pub pread-pwrite :
    {W : Type 0} {size n off : ℕ} {content : W → Content} {io : BlockIo W} (dev : Device W)
    (m : Machine W) (src : List ℕ)
    → dev.d_private ≡ some io
    → IsMedium (align_quantum io.block_size) size content io
    → io.readonly ≡ false
    → n ≤ length src
    → FitsDevice io.block_count (align_quantum io.block_size) size off n
    → let k = min n (size - off) in
      let (written, m') = pwrite dev src (pos n) (pos off) m in
      (written ≡ ok k) × (pread dev (pos n) (pos off) m' ≡ (ok (k, take k src), m'))
pread-pwrite {size} {n} {off} {content} dev m src private medium writable h fits =
    let k = min n (size - off) in
    let put = pwrite_lem dev m src private medium writable h fits in
    let size_k : length (take k src) ≡ k = length-take k src (omega arith) in
    let m' = record m { disk = put.disk } in
    let same : slice (content put.disk) off k ≡ take k src =
      ap (λ c. slice c off k) put.puts
      ∙ ap (slice (overlay (content m.disk) off (take k src)) off) (sym size_k)
      ∙ slice-overlay (content m.disk) off (take k src) in
    rw put.returns (refl, pread_lem dev m' private medium fits ∙ ap (λ bs. (ok (k, bs), m')) same)
