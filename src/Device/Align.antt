-- ===== src/Device/Align.antt =====
-- The alignment quantum and the masks made of it, as arithmetic.
use usbrw.Base.{
  ℕ, zero, suc, ◌+◌, ◌-◌, ◌*◌, ◌%◌, ◌^◌, min, ◌≢◌, ◌≤◌, ◌<◌, ◌≡◌, refl, sym, subst, ◌⊎◌, inl, inr,
  Bool, true, ◌&&◌, ◌||◌, arith, bit_and, leb, ◌==◌, leb→le, not_leb→lt, Bool-cases,
}
use usbrw.Base.Bits.{bit_and-mask}
use usbrw.Device.{align_quantum, clamp_end}

abbrev pub IsQuantum : ℕ → Type 0
IsQuantum al = (al ≡ 512) ⊎ (al ≡ 1024) ⊎ (al ≡ 2048) ⊎ (al ≡ 4096)

is_quantum : ℕ → Bool
is_quantum al = al == 512 || (al == 1024 || (al == 2048 || al == 4096))

check_below : (ℕ → Bool) → ℕ → Bool
check_below test zero = true
check_below test (suc n) = test n && check_below test n

check_below_sound : (test : ℕ → Bool) (n x : ℕ) → check_below test n ≡ true → x < n → test x ≡ true
unfolding check_below
check_below_sound test zero x h lt = elim lt [ ]
check_below_sound test (suc n) x h lt = ground (arith, check_below_sound test n x)

-- Every block size up to the limit, by evaluation.
quantum_table : check_below (λ s. is_quantum (align_quantum s)) 4097 ≡ true
unfolding check_below is_quantum align_quantum
quantum_table = refl

align_quantum_above : (s : ℕ) → 4096 < s → align_quantum s ≡ 512
unfolding align_quantum
align_quantum_above s h = ground arith

is_quantum→IsQuantum : (al : ℕ) → is_quantum al ≡ true → IsQuantum al
unfolding is_quantum
is_quantum→IsQuantum al h = ground arith

pub align_quantum-IsQuantum : (block_size : ℕ) → IsQuantum (align_quantum block_size)
align_quantum-IsQuantum s = elim (Bool-cases (leb s 4096)) [
  | inl small ↦ is_quantum→IsQuantum _ (
      check_below_sound (λ s. is_quantum (align_quantum s)) 4097 s quantum_table
        (omega (arith, leb→le s 4096 small)))
  | inr large ↦ inl (align_quantum_above s (not_leb→lt s 4096 large))
]

-- What holds at the four quanta holds at each.
by_quantum : (P : ℕ → Type 0) {al : ℕ} → IsQuantum al → P 512 → P 1024 → P 2048 → P 4096 → P al
by_quantum P q a b c d = elim q [
  | inl e ↦ subst P (sym e) a
  | inr (inl e) ↦ subst P (sym e) b
  | inr (inr (inl e)) ↦ subst P (sym e) c
  | inr (inr (inr e)) ↦ subst P (sym e) d
]

module _ {al : ℕ} (q : IsQuantum al) where
  pub quantum_pos : 0 < al
  quantum_pos = omega arith

  pub mask-mod : (x : ℕ) → bit_and x (al - 1) ≡ x % al
  mask-mod x =
      by_quantum (λ a. bit_and x (a - 1) ≡ x % a) q (bit_and-mask 9 x) (bit_and-mask 10 x)
        (bit_and-mask 11 x) (bit_and-mask 12 x)

  -- A block that starts inside a device of whole blocks ends inside it.
  pub block_fits : (x size : ℕ) → x % al ≡ 0 → size % al ≡ 0 → x < size → x + al ≤ size
  block_fits x size hx hs h =
      by_quantum (λ a. x % a ≡ 0 → size % a ≡ 0 → x + a ≤ size) q (λ u v. omega arith)
        (λ u v. omega arith) (λ u v. omega arith) (λ u v. omega arith) hx hs

  pub round_down : (x : ℕ) → (x - x % al) % al ≡ 0
  round_down x =
      by_quantum (λ a. (x - x % a) % a ≡ 0) q (omega arith) (omega arith) (omega arith)
        (omega arith)

  pub round_up : (x : ℕ) → (x + (al - x % al)) % al ≡ 0
  round_up x =
      by_quantum (λ a. (x + (a - x % a)) % a ≡ 0) q (omega arith) (omega arith) (omega arith)
        (omega arith)

  -- The whole blocks of a range that starts on a boundary end on one.
  pub whole_blocks : (x n : ℕ) → x % al ≡ 0 → (x + (n - n % al)) % al ≡ 0
  whole_blocks x n h =
      by_quantum (λ a. x % a ≡ 0 → (x + (n - n % a)) % a ≡ 0) q (λ u. omega arith)
        (λ u. omega arith) (λ u. omega arith) (λ u. omega arith) h

  pub range_aligned : (x y : ℕ) → x % al ≡ 0 → y % al ≡ 0 → (y - x) % al ≡ 0
  range_aligned x y hx hy =
      by_quantum (λ a. x % a ≡ 0 → y % a ≡ 0 → (y - x) % a ≡ 0) q (λ u v. omega arith)
        (λ u v. omega arith) (λ u v. omega arith) (λ u v. omega arith) hx hy

-- What the callbacks record says of the device fits its true size, and the request fits a
-- 64-bit offset: the size in blocks is exact, or it is unknown and the request stays inside.
pub record FitsDevice (block_count al size off n : ℕ) : Type 0 where
  pub no_wrap : off + n < 2 ^ 64
  pub size_known :
      ((block_count ≢ 0) × (size ≡ block_count * al) × (size < 2 ^ 64))
      ⊎ ((block_count ≡ 0) × (off + n ≤ size))

-- The number of bytes of a request that the device has.
pub clamp_end-min :
    {block_count al size off n : ℕ}
    → FitsDevice block_count al size off n
    → let end = clamp_end block_count al off ((off + n) % 2 ^ 64) in
      (end - off ≡ min n (size - off)) × (off < end → end ≤ size)
unfolding clamp_end
clamp_end-min fits = ground arith
