-- ===== src/Ntfs/Locks/Sections/Release.antt =====
-- That the lock is given back.
use usbrw.Base.{ℕ, zero, suc, ◌≡◌, refl, sym, subst, List, [], ◌∷◌}
use usbrw.Ntfs.Locks.{
  Code, return, access, lock, unlock, Mutex, free, taken, System, put, thread_move, moved, step,
  steps,
}
use usbrw.Ntfs.Locks.Sections.{Guarded, itself, put_at}

-- One thread alone, so many times.
abbrev pub alone : ℕ → ℕ → List ℕ
alone zero t = []
alone (suc n) t = t ∷ alone n t

module _ {S A : Type 0} where
  pub record Released (t : ℕ) (y : System S A) : Type 0 where
    pub count : ℕ
    pub is_free : (steps (alone count t) y).mutex ≡ free

  one_more : (t : ℕ) (y : System S A) → Released t (step t y) → Released t y
  one_more t y r = record { count = suc r.count; is_free = r.is_free }

  at_step :
      (t : ℕ) (codes : ℕ → Code S A) (m : Mutex) (s : S) (c : Code S A)
      → codes t ≡ c
      → Released t (moved t codes (thread_move t c m s))
      → Released t (record { codes = codes; mutex = m; state = s })
  at_step t codes m s c h r =
      one_more t (record { codes = codes; mutex = m; state = s })
        (subst (λ d. Released t (moved t codes (thread_move t d m s))) (sym h) r)

  pub releases :
      (t more : ℕ) (c : Code S A) (codes : ℕ → Code S A) (s : S)
      → codes t ≡ c
      → Guarded (suc more) c
      → Released t (record { codes = codes; mutex = taken t more; state = s })
  releases t more (return a) codes s h g = absurd g
  releases t more (access f c) codes s h g =
      at_step t codes (taken t more) s (access f c) h
        (releases t more (c s) (put t (c s) codes) (f s) (put_at t (c s) codes) (g s))
  releases t more (lock c) codes s h g =
      at_step t codes (taken t more) s (lock c) h
        (rw (itself t) (releases t (suc more) c (put t c codes) s (put_at t c codes) g))
  releases t zero (unlock c) codes s h g =
      at_step t codes (taken t zero) s (unlock c) h
        (record { count = 0; is_free = rw (itself t) refl })
  releases t (suc more) (unlock c) codes s h g =
      at_step t codes (taken t (suc more)) s (unlock c) h
        (rw (itself t) (releases t more c (put t c codes) s (put_at t c codes) g))
