-- ===== src/Ntfs/Locks/Sections/Progress.antt =====
-- That no thread is kept from its end.
use usbrw.Base.{ℕ, zero, suc, ◌≡◌, refl, sym, subst, ap, ◌∙◌, List, [], ◌∷◌, ◌++◌}
use usbrw.Ntfs.Locks.{
  Code, return, access, lock, unlock, Mutex, free, taken, depth_of, System, put, thread_move, moved,
  step, steps,
}
use usbrw.Ntfs.Locks.Sections.{Guarded, AllGuarded, itself, put_at}
use usbrw.Ntfs.Locks.Sections.Orders.{step-AllGuarded}
use usbrw.Ntfs.Locks.Sections.Release.{alone, Released, releases}

-- The mutex as one thread has it, so deep.
abbrev held : ℕ → ℕ → Mutex
held t zero = free
held t (suc more) = taken t more

module _ {S A : Type 0} where
  record Ended (t : ℕ) (y : System S A) : Type 0 where
    count : ℕ
    value : A
    at_end : (steps (alone count t) y).codes t ≡ return value

  after_step :
      (t : ℕ) (codes : ℕ → Code S A) (m : Mutex) (s : S) (c : Code S A)
      → codes t ≡ c
      → Ended t (moved t codes (thread_move t c m s))
      → Ended t (record { codes = codes; mutex = m; state = s })
  after_step t codes m s c h e =
      let e' : Ended t (moved t codes (thread_move t (codes t) m s)) =
        subst (λ d. Ended t (moved t codes (thread_move t d m s))) (sym h) e in
      record { count = suc e'.count; value = e'.value; at_end = e'.at_end }

  ends :
      (t depth : ℕ) (c : Code S A) (codes : ℕ → Code S A) (s : S)
      → codes t ≡ c
      → Guarded depth c
      → Ended t (record { codes = codes; mutex = held t depth; state = s })
  ends t zero (return a) codes s h g = record { count = 0; value = a; at_end = h }
  ends t (suc more) (return a) codes s h g = absurd g
  ends t zero (access f c) codes s h g = absurd g
  ends t (suc more) (access f c) codes s h g =
      after_step t codes (taken t more) s (access f c) h
        (ends t (suc more) (c s) (put t (c s) codes) (f s) (put_at t (c s) codes) (g s))
  ends t zero (lock c) codes s h g =
      after_step t codes free s (lock c) h (ends t 1 c (put t c codes) s (put_at t c codes) g)
  ends t (suc more) (lock c) codes s h g =
      after_step t codes (taken t more) s (lock c) h
        (rw (itself t) (ends t (suc (suc more)) c (put t c codes) s (put_at t c codes) g))
  ends t zero (unlock c) codes s h g = absurd g
  ends t (suc zero) (unlock c) codes s h g =
      after_step t codes (taken t zero) s (unlock c) h
        (rw (itself t) (ends t zero c (put t c codes) s (put_at t c codes) g))
  ends t (suc (suc more)) (unlock c) codes s h g =
      after_step t codes (taken t (suc more)) s (unlock c) h
        (rw (itself t) (ends t (suc more) c (put t c codes) s (put_at t c codes) g))

  pub steps-AllGuarded : (ts : List ℕ) (y : System S A) → AllGuarded y → AllGuarded (steps ts y)
  steps-AllGuarded [] y all = all
  steps-AllGuarded (t ∷ ts) y all = steps-AllGuarded ts (step t y) (step-AllGuarded t y all)

  giving_back :
      (codes : ℕ → Code S A) (m : Mutex) (s : S)
      → AllGuarded (record { codes = codes; mutex = m; state = s })
      → (u : ℕ) × Released u (record { codes = codes; mutex = m; state = s })
  giving_back codes free s all = (0, record { count = 0; is_free = refl })
  giving_back codes (taken u more) s all = (
    u,
    releases u more (codes u) codes s refl
        (subst (λ d. Guarded d (codes u)) (depth_taken u more) (all u)),
  )
    where
      depth_taken : (u more : ℕ) → depth_of u (taken u more) ≡ suc more
      depth_taken u more = rw (itself u) refl

  reaching : (t : ℕ) (y : System S A) → AllGuarded y → y.mutex ≡ free → Ended t y
  reaching t y all unheld =
      subst (λ m. Ended t (record { codes = y.codes; mutex = m; state = y.state })) (sym unheld)
        (ends t 0 (y.codes t) y.codes y.state refl
          (subst (λ m. Guarded (depth_of t m) (y.codes t)) unheld (all t)))

  steps-++ : (us vs : List ℕ) (y : System S A) → steps (us ++ vs) y ≡ steps vs (steps us y)
  steps-++ [] vs y = refl
  steps-++ (u ∷ us) vs y = steps-++ us vs (step u y)

  pub can_end :
      (t : ℕ) (y : System S A)
      → AllGuarded y
      → (us : List ℕ) × (a : A) × ((steps us y).codes t ≡ return a)
  can_end t y all =
      let (u, r) = giving_back y.codes y.mutex y.state all in
      let giving = alone r.count u in
      let e = reaching t (steps giving y) (steps-AllGuarded giving y all) r.is_free in
      (
        giving ++ alone e.count t,
        e.value,
        ap (λ (z : System S A). z.codes t) (steps-++ giving (alone e.count t) y) ∙ e.at_end,
      )
