-- ===== src/Ntfs/Locks/Sections/Moves.antt =====
-- One step of one thread, by how the lock stands for it.
use usbrw.Base.{ℕ, zero, suc, ◌≡◌, refl, ap, ◌∙◌, sym, subst, false, Bool-cases, inl, inr, ◌==◌}
use usbrw.Base.{==→eq}
use usbrw.Ntfs.Locks.{
  Code, return, access, lock, unlock, Mutex, free, taken, depth_of, thread_move, moved,
}
use usbrw.Ntfs.Locks.Sections.{
  itself, Guarded, completed_at, completed, sections, entering, put_same, completed_put,
}

-- How the lock stands for a thread.
pub data Owner (t : ℕ) : Mutex → Type 0 where
  nobody : Owner t free
  itself_has : (more : ℕ) → Owner t (taken t more)
  another : (u more : ℕ) → (u == t) ≡ false → Owner t (taken u more)

abbrev pub depth : {t : ℕ} {m : Mutex} → Owner t m → ℕ
depth nobody = 0
depth (itself_has more) = suc more
depth (another u more other) = 0

pub owner : (t : ℕ) (m : Mutex) → Owner t m
owner t free = nobody
owner t (taken u more) = elim (Bool-cases (u == t)) [
  | inl same ↦ subst (λ v. Owner t (taken v more)) (sym (==→eq u t same)) (itself_has more)
  | inr other ↦ another u more other
]

pub depth_lem : {t : ℕ} {m : Mutex} (o : Owner t m) → depth_of t m ≡ depth o
depth_lem nobody = refl
depth_lem {t} (itself_has more) = rw (itself t) refl
depth_lem (another u more other) = rw other refl

module _ {S A : Type 0} where
  pub thread_move-completed :
      (t : ℕ) (c : Code S A) (codes : ℕ → Code S A) (m : Mutex) (s : S) (o : Owner t m)
      → codes t ≡ c
      → Guarded (depth o) c
      → completed (moved t codes (thread_move t c m s))
        ≡ sections (entering t c m) (completed_at codes m s)
  thread_move-completed t (return a) codes free s nobody h g =
      ap (λ x. (x, s)) (put_same t (return a) codes h)
  thread_move-completed t (access f c) codes free s nobody h g = absurd g
  thread_move-completed t (lock c) codes free s nobody h g = completed_put t 0 c codes s ∙ rw h refl
  thread_move-completed t (unlock c) codes free s nobody h g = absurd g
  thread_move-completed t (return a) codes _ s (itself_has more) h g = absurd g
  thread_move-completed t (access f c) codes _ s (itself_has more) h g =
      completed_put t more (c s) codes (f s) ∙ rw h refl
  thread_move-completed t (lock c) codes _ s (itself_has more) h g =
      rw (itself t) (completed_put t (suc more) c codes s ∙ rw h refl)
  thread_move-completed t (unlock c) codes _ s (itself_has zero) h g = rw (itself t, h) refl
  thread_move-completed t (unlock c) codes _ s (itself_has (suc more)) h g =
      rw (itself t) (completed_put t more c codes s ∙ rw h refl)
  thread_move-completed t (return a) codes _ s (another u more other) h g =
      ap (λ x. completed_at x (taken u more) s) (put_same t (return a) codes h)
  thread_move-completed t (access f c) codes _ s (another u more other) h g = absurd g
  thread_move-completed t (lock c) codes _ s (another u more other) h g =
      rw other (ap (λ x. completed_at x (taken u more) s) (put_same t (lock c) codes h))
  thread_move-completed t (unlock c) codes _ s (another u more other) h g = absurd g

  -- Where the moving thread is guarded after its thread_move.
  pub thread_move-Guarded :
      (t : ℕ) (c : Code S A) (m : Mutex) (s : S) (o : Owner t m)
      → Guarded (depth o) c
      → Guarded (depth_of t (thread_move t c m s).1) (thread_move t c m s).0
  thread_move-Guarded t (return a) free s nobody g = g
  thread_move-Guarded t (access f c) free s nobody g = absurd g
  thread_move-Guarded t (lock c) free s nobody g = rw (itself t) g
  thread_move-Guarded t (unlock c) free s nobody g = absurd g
  thread_move-Guarded t (return a) _ s (itself_has more) g = absurd g
  thread_move-Guarded t (access f c) _ s (itself_has more) g = rw (itself t) (g s)
  thread_move-Guarded t (lock c) _ s (itself_has more) g = rw (itself t) (rw (itself t) g)
  thread_move-Guarded t (unlock c) _ s (itself_has zero) g = rw (itself t) g
  thread_move-Guarded t (unlock c) _ s (itself_has (suc more)) g = rw (itself t) (rw (itself t) g)
  thread_move-Guarded t (return a) _ s (another u more other) g = rw other g
  thread_move-Guarded t (access f c) _ s (another u more other) g = absurd g
  thread_move-Guarded t (lock c) _ s (another u more other) g = rw other (rw other g)
  thread_move-Guarded t (unlock c) _ s (another u more other) g = absurd g

  -- No other thread is deeper or less deep in the lock after it.
  pub move_others :
      (t v : ℕ) (c : Code S A) (m : Mutex) (s : S) (o : Owner t m)
      → Guarded (depth o) c
      → (t == v) ≡ false
      → depth_of v (thread_move t c m s).1 ≡ depth_of v m
  move_others t v (return a) m s o g h = refl
  move_others t v (access f c) m s o g h = refl
  move_others t v (lock c) free s nobody g h = rw h refl
  move_others t v (unlock c) free s nobody g h = absurd g
  move_others t v (lock c) _ s (itself_has more) g h = rw (itself t) (rw h refl)
  move_others t v (unlock c) _ s (itself_has zero) g h = rw (itself t) (rw h refl)
  move_others t v (unlock c) _ s (itself_has (suc more)) g h = rw (itself t) (rw h refl)
  move_others t v (lock c) _ s (another u more other) g h = rw other refl
  move_others t v (unlock c) _ s (another u more other) g h = absurd g
