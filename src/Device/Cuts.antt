-- ===== src/Device/Cuts.antt =====
-- Where a request is cut: the facts on boundaries that the reads and the writes share.
use usbrw.Base.{
  ℕ, ◌+◌, ◌-◌, ◌%◌, ◌≤◌, ◌<◌, ◌≡◌, ◌≢◌, ap, ◌⊎◌, inl, inr, ◌&&◌, true, arith, ◌==◌, bit_and,
}
use native.Mathlib.Nat.{mod-le, mod-lt, mod_self}
use usbrw.Device.{bit_clear, head_length}
use usbrw.Device.Align.{
  IsQuantum, quantum_pos, mask-mod, block_fits, round_down, round_up, whole_blocks, range_aligned,
}
use usbrw.Device.Medium.{IsRequest}

-- `next` is where a part stopped: on a block boundary, or at the end of the request.
abbrev pub IsCut : (al end next : ℕ) → Type 0
IsCut al end next = (next ≤ end) × ((next % al ≡ 0) ⊎ (next ≡ end))

pub bit_clear-mask : {al : ℕ} → IsQuantum al → (x : ℕ) → bit_clear x (al - 1) ≡ x - x % al
bit_clear-mask q x = ap (λ (t : ℕ). x - t) (mask-mod q x)

module _ {al : ℕ} (q : IsQuantum al) (cur end : ℕ) where
  -- What the head takes: the rest of its block, or of the request if that is less.
  head_length-cases :
      ((head_length al cur end ≡ end - cur) × (end - cur ≤ al - cur % al))
      ⊎ ((head_length al cur end ≡ al - cur % al) × (al - cur % al ≤ end - cur))
  unfolding head_length
  head_length-cases = ground (arith, bit_clear-mask q cur, mod-le cur al)

  pub head_length_lem :
      cur < end
      → (cur % al + head_length al cur end ≤ al) × IsCut al end (cur + head_length al cur end)
  head_length_lem h = elim head_length-cases [
    | inl (e, small) ↦
        rw e (omega (arith, mod-lt cur (quantum_pos q)), (omega arith, inr (omega arith)))
    | inr (e, small) ↦
        rw e (omega (arith, mod-lt cur (quantum_pos q)), (omega arith, inl (round_up q cur)))
  ]

module _ {al size : ℕ} (q : IsQuantum al) (whole : size % al ≡ 0) (cur end : ℕ)
    (inside : end ≤ size) where
  -- The block that `cur` lies in is a request inside the medium.
  pub block-IsRequest : cur < end → IsRequest al size (bit_clear cur (al - 1)) al
  block-IsRequest h = rw (bit_clear-mask q cur) (record {
    off_aligned = round_down q cur;
    len_aligned = mod_self al;
    inside =
        block_fits q (cur - cur % al) size (round_down q cur) whole (omega (arith, mod-le cur al));
  })

  at_boundary : (cur % al ≡ 0) ⊎ (cur ≡ end) → cur < end → cur % al ≡ 0
  at_boundary (inl e) h = e
  at_boundary (inr e) h = absurd (omega arith)

  mid_eq : bit_clear (end - cur) (al - 1) ≡ end - cur - (end - cur) % al
  mid_eq = bit_clear-mask q (end - cur)

  -- The whole blocks in the middle of a request, where it has any.
  pub mid-IsRequest :
      (cur % al ≡ 0) ⊎ (cur ≡ end)
      → bit_clear (end - cur) (al - 1) ≢ 0
      → IsRequest al size cur (bit_clear (end - cur) (al - 1))
  mid-IsRequest at some_blocks = record {
    off_aligned = at_boundary at (omega (arith, mid_eq));
    len_aligned = rw mid_eq (round_down q (end - cur));
    inside = omega (arith, mid_eq);
  }

  -- Behind the middle less than a block is left.
  pub mid-IsCut :
      cur ≤ end
      → (cur % al ≡ 0) ⊎ (cur ≡ end)
      → let next = cur + bit_clear (end - cur) (al - 1) in IsCut al end next × (end - next < al)
  mid-IsCut h at = rw mid_eq (
    (
      omega (arith, mod-le (end - cur) al),
      elim at [ inl e ↦ inl (whole_blocks q cur (end - cur) e) | inr e ↦ inr (omega arith) ],
    ),
    omega (arith, mod-lt (end - cur) (quantum_pos q)),
  )

  -- The last block of a request, read or written as a whole.
  pub tail-IsRequest : (cur % al ≡ 0) ⊎ (cur ≡ end) → cur < end → IsRequest al size cur al
  tail-IsRequest at h =
      let aligned = at_boundary at h in
      record {
        off_aligned = aligned;
        len_aligned = mod_self al;
        inside = block_fits q cur size aligned whole (omega arith);
      }

-- The short way of a request that is already aligned is taken only where it is a request.
pub aligned-IsRequest :
    {al size : ℕ}
    → IsQuantum al
    → (off end : ℕ) → off < end
    → end ≤ size
    → ((bit_and off (al - 1) == 0) && (bit_and end (al - 1) == 0)) ≡ true
    → IsRequest al size off (end - off)
aligned-IsRequest {al} q off end h inside aligned =
    let off_whole : off % al ≡ 0 = ground (arith, mask-mod q off) in
    let end_whole : end % al ≡ 0 = ground (arith, mask-mod q end) in
    record {
      off_aligned = off_whole;
      len_aligned = range_aligned q off end off_whole end_whole;
      inside = omega arith;
    }
