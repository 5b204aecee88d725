-- ===== src/Ntfs/Locks/Sections/Orders.antt =====
-- All steps of all threads, against the order in which they take the lock.
use usbrw.Base.{
  ℕ, ◌≡◌, refl, ap, ◌∙◌, sym, subst, false, Bool-cases, inl, inr, ◌==◌, List, [], ◌∷◌, ◌++◌, arith,
}
use usbrw.Base.{==→eq}
use usbrw.Ntfs.Locks.{Code, depth_of, System, thread_move, step, steps}
use usbrw.Ntfs.Locks.Sections.{Guarded, AllGuarded, completed, sections, section, entering, entries}
use usbrw.Ntfs.Locks.Sections.Moves.{
  owner, depth_lem, thread_move-completed, thread_move-Guarded, move_others,
}

module _ {S A : Type 0} where
  step-completed :
      (t : ℕ) (y : System S A)
      → AllGuarded y
      → completed (step t y) ≡ sections (entering t (y.codes t) y.mutex) (completed y)
  step-completed t y all =
      let o = owner t y.mutex in
      thread_move-completed t (y.codes t) y.codes y.mutex y.state o refl
        (subst (λ d. Guarded d (y.codes t)) (depth_lem o) (all t))

  pub step-AllGuarded : (t : ℕ) (y : System S A) → AllGuarded y → AllGuarded (step t y)
  step-AllGuarded t y all v =
      let o = owner t y.mutex in
      let g = subst (λ d. Guarded d (y.codes t)) (depth_lem o) (all t) in
      let after = thread_move t (y.codes t) y.mutex y.state in
      elim (Bool-cases (v == t)) [
        | inl same ↦ rw same (
            subst (λ u. Guarded (depth_of u after.1) after.0) (sym (==→eq v t same))
              (thread_move-Guarded t (y.codes t) y.mutex y.state o g))
        | inr other ↦ rw other (
            subst (λ d. Guarded d (y.codes v))
              (sym (move_others t v (y.codes t) y.mutex y.state o g (swapped v t other))) (all v))
      ]
    where
      swapped : (a b : ℕ) → (a == b) ≡ false → (b == a) ≡ false
      swapped a b h = ground arith

  sections-++ :
      (xs ys : List ℕ) (x : (ℕ → Code S A) × S)
      → sections (xs ++ ys) x ≡ sections ys (sections xs x)
  sections-++ [] ys x = refl
  sections-++ (t ∷ xs) ys x = sections-++ xs ys (section t x)

  pub steps-sections :
      (ts : List ℕ) (y : System S A)
      → AllGuarded y
      → completed (steps ts y) ≡ sections (entries ts y) (completed y)
  steps-sections [] y all = refl
  steps-sections (t ∷ ts) y all =
      steps-sections ts (step t y) (step-AllGuarded t y all)
      ∙ ap (sections (entries ts (step t y))) (step-completed t y all)
      ∙ sym (sections-++ (entering t (y.codes t) y.mutex) (entries ts (step t y)) (completed y))
