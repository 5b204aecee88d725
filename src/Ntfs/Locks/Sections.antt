-- ===== src/Ntfs/Locks/Sections.antt =====
-- Threads that use the library only with the lock held, whatever the order of their steps.
mod Moves
mod Release
pub mod Progress
pub mod Orders
use usbrw.Base.{
  ℕ, zero, suc, ◌≡◌, refl, ap, ◌∙◌, sym, subst, fun_ext, Bool, true, false, Bool-cases, inl, inr,
  ◌==◌, if◌then◌else◌, List, [], ◌∷◌, ◌++◌, arith,
}
use usbrw.Base.{==→eq}
use usbrw.Ntfs.Locks.{
  Code, return, access, lock, unlock, Mutex, free, taken, depth_of, unlocked, System, put,
  thread_move, moved, step, steps,
}

pub itself : (t : ℕ) → (t == t) ≡ true
itself t = ground arith

module _ {S A : Type 0} where
  -- Code that is so deep in the lock touches the library only inside, and ends outside.
  abbrev pub Guarded : ℕ → Code S A → Type 0
  Guarded zero (return a) = Unit
  Guarded (suc depth) (return a) = ⊥
  Guarded zero (access f c) = ⊥
  Guarded (suc depth) (access f c) = (s : S) → Guarded (suc depth) (c s)
  Guarded depth (lock c) = Guarded (suc depth) c
  Guarded zero (unlock c) = ⊥
  Guarded (suc depth) (unlock c) = Guarded depth c

  abbrev pub AllGuarded : System S A → Type 0
  AllGuarded y = (t : ℕ) → Guarded (depth_of t y.mutex) (y.codes t)

  -- Code run alone until it has given the lock back.
  abbrev pub finish : ℕ → Code S A → S → Code S A × S
  finish zero c s = (c, s)
  finish (suc depth) (return a) s = (return a, s)
  finish (suc depth) (access f c) s = finish (suc depth) (c s) (f s)
  finish (suc depth) (lock c) s = finish (suc (suc depth)) c s
  finish (suc depth) (unlock c) s = finish depth c s

  abbrev pub replaced : ℕ → (ℕ → Code S A) → Code S A × S → (ℕ → Code S A) × S
  replaced t codes (c, s) = (put t c codes, s)

  -- What the system comes to when the thread that has the lock gives it back before others go on.
  abbrev pub completed_at : (ℕ → Code S A) → Mutex → S → (ℕ → Code S A) × S
  completed_at codes free s = (codes, s)
  completed_at codes (taken t more) s = replaced t codes (finish (suc more) (codes t) s)

  abbrev pub completed : System S A → (ℕ → Code S A) × S
  completed y = completed_at y.codes y.mutex y.state

  -- One thread from taking the lock to giving it back, with no other thread in between.
  abbrev whole : Code S A → S → Code S A × S
  whole (lock c) s = finish 1 c s
  whole c s = (c, s)

  abbrev pub section : ℕ → (ℕ → Code S A) × S → (ℕ → Code S A) × S
  section t (codes, s) = replaced t codes (whole (codes t) s)

  abbrev pub sections : List ℕ → (ℕ → Code S A) × S → (ℕ → Code S A) × S
  sections [] x = x
  sections (t ∷ ts) x = sections ts (section t x)

  -- The threads that take the lock when it is free, in the order in which they do.
  abbrev pub entering : ℕ → Code S A → Mutex → List ℕ
  entering t (lock c) free = t ∷ []
  entering t c m = []

  abbrev pub entries : List ℕ → System S A → List ℕ
  entries [] y = []
  entries (t ∷ ts) y = entering t (y.codes t) y.mutex ++ entries ts (step t y)

  pub put_at : (t : ℕ) (c : Code S A) (codes : ℕ → Code S A) → put t c codes t ≡ c
  put_at t c codes = rw (itself t) refl

  pub put_same : (t : ℕ) (c : Code S A) (codes : ℕ → Code S A) → codes t ≡ c → put t c codes ≡ codes
  put_same t c codes h = fun_ext λ u. elim (Bool-cases (u == t)) [
    | inl here ↦ rw here (sym h ∙ ap codes (sym (==→eq u t here)))
    | inr there ↦ rw there refl
  ]

  put_twice :
      (t : ℕ) (c c' : Code S A) (codes : ℕ → Code S A) → put t c (put t c' codes) ≡ put t c codes
  put_twice t c c' codes =
      fun_ext
        λ u. elim (Bool-cases (u == t)) [ inl here ↦ rw here refl | inr there ↦ rw there refl ]

  pub completed_put :
      (t more : ℕ) (c : Code S A) (codes : ℕ → Code S A) (s : S)
      → completed_at (put t c codes) (taken t more) s ≡ replaced t codes (finish (suc more) c s)
  completed_put t more c codes s =
      rw (put_at t c codes, put_twice t (finish (suc more) c s).0 c codes) refl
