-- ===== src/Ntfs/Attrs/SpecialData.antt =====
-- Reading the data of a special file as a whole (ntfs_fskit.c, lines 169 to 175 and 928 to 931).
use usbrw.Base.{
  ℕ, zero, suc, ◌≡◌, refl, ap, false, Option, none, some, ◌==◌, ==→eq, Bool-cases, inl, inr, arith,
}
use usbrw.Base.Int.{ℤ, pos, negsuc}
use usbrw.Ntfs.Attrs.{Intx, intx_read}
use usbrw.Ntfs.Call.{ended}
use usbrw.Ntfs.Call.Holds.{Holds}

module _ {S : Type 0} (F : S → Type 0) (Q : Option Intx → S → Type 0) (size : ℕ) where
  ended_short :
      (k errno : ℕ) (s : S)
      → F s
      → (k == size) ≡ false
      → (errno ≡ 0 → pos k ≡ pos size)
      → Holds Q F (ended none errno s)
  ended_short k zero s f short told = let whole = told refl in ground arith
  ended_short k (suc n) s f short told = f

  ended_negative :
      (n errno : ℕ) (s : S)
      → F s
      → (errno ≡ 0 → negsuc n ≡ pos size)
      → Holds Q F (ended none errno s)
  ended_negative n zero s f told = let whole = told refl in ground arith
  ended_negative n (suc m) s f told = f

  -- If a read that leaves errno 0 is whole.
  pub intx_read-Holds :
      (run : (ℤ × ℕ × Intx) × S)
      → F run.1
      → (run.0.1 ≡ 0 → run.0.0 ≡ pos size)
      → (run.0.0 ≡ pos size → Q (some run.0.2) run.1)
      → Holds Q F (intx_read size run)
  intx_read-Holds ((pos k, errno, intx), s) f told h = elim (Bool-cases (k == size)) [
    | inl whole ↦ rw whole (h (ap pos (==→eq k size whole)))
    | inr short ↦ rw short (ended_short k errno s f short told)
  ]
  intx_read-Holds ((negsuc n, errno, intx), s) f told h = ended_negative n errno s f told
