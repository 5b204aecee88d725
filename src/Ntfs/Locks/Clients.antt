-- ===== src/Ntfs/Locks/Clients.antt =====
-- Threads that call the public functions of the bridge, whatever the order of their steps.
use usbrw.Base.{
  ℕ, zero, suc, ◌≡◌, refl, ap, ◌∙◌, fun_ext, Bool-cases, inl, inr, ◌==◌, if◌then◌else◌, List, [],
  ◌∷◌,
}
use usbrw.Ntfs.Locks.{
  Code, return, access, lock, unlock, free, and_then, run, Function, setattr, truncate, body,
  public, System, put, steps,
}
use usbrw.Ntfs.Locks.Sections.{Guarded, finish, completed, section, sections, entries, put_same}
use usbrw.Ntfs.Locks.Sections.Orders.{steps-sections}
use usbrw.Ntfs.Locks.Sections.Progress.{can_end, steps-AllGuarded}

-- A thread that goes on calling, as the results of its calls say.
pub data Client (Args A : Type 0) : Type 0 where
  finished : Client Args A
  call : Function → Args → (A → Client Args A) → Client Args A

module _ {S A : Type 0} where
  -- Code that gives back each lock that it takes, and no other.
  abbrev pub Nested : ℕ → Code S A → Type 0
  Nested zero (return a) = Unit
  Nested (suc depth) (return a) = ⊥
  Nested depth (access f c) = (s : S) → Nested depth (c s)
  Nested depth (lock c) = Nested (suc depth) c
  Nested zero (unlock c) = ⊥
  Nested (suc depth) (unlock c) = Nested depth c

  and_then-Nested :
      (depth : ℕ) (c : Code S A)
      → Nested depth c
      → Nested (suc depth) (and_then c (λ r. unlock (return r)))
  and_then-Nested zero (return a) n = n
  and_then-Nested (suc depth) (return a) n = absurd n
  and_then-Nested depth (access f c) n = λ s. and_then-Nested depth (c s) (n s)
  and_then-Nested depth (lock c) n = and_then-Nested (suc depth) c n
  and_then-Nested zero (unlock c) n = absurd n
  and_then-Nested (suc depth) (unlock c) n = and_then-Nested depth c n

  run-unlocking : (c : Code S A) (s : S) → run (and_then c (λ r. unlock (return r))) s ≡ run c s
  run-unlocking (return a) s = refl
  run-unlocking (access f c) s = run-unlocking (c s) (f s)
  run-unlocking (lock c) s = run-unlocking c s
  run-unlocking (unlock c) s = run-unlocking c s

  module _ {B : Type 0} (k : A → Code S B) where
    -- What follows a body in the lock.
    abbrev pub bracket : Code S A → Code S B
    bracket c = and_then (and_then c (λ r. unlock (return r))) k

    bracket-Guarded :
        (depth : ℕ) (c : Code S A)
        → Nested depth c
        → ((a : A) → Guarded 0 (k a))
        → Guarded (suc depth) (bracket c)
    bracket-Guarded zero (return a) n next = next a
    bracket-Guarded (suc depth) (return a) n next = absurd n
    bracket-Guarded depth (access f c) n next = λ s. bracket-Guarded depth (c s) (n s) next
    bracket-Guarded depth (lock c) n next = bracket-Guarded (suc depth) c n next
    bracket-Guarded zero (unlock c) n next = absurd n
    bracket-Guarded (suc depth) (unlock c) n next = bracket-Guarded depth c n next

    finish-bracket :
        (depth : ℕ) (c : Code S A) (s : S)
        → Nested depth c
        → finish (suc depth) (bracket c) s ≡ (k (run c s).0, (run c s).1)
    finish-bracket zero (return a) s n = refl
    finish-bracket (suc depth) (return a) s n = absurd n
    finish-bracket depth (access f c) s n = finish-bracket depth (c s) (f s) (n s)
    finish-bracket depth (lock c) s n = finish-bracket (suc depth) c s n
    finish-bracket zero (unlock c) s n = absurd n
    finish-bracket (suc depth) (unlock c) s n = finish-bracket depth c s n

module _ {S Args A : Type 0} (impl : Function → Args → Code S A) (resizing : Args → Args) where
  abbrev pub code : Client Args A → Code S (Unit {0})
  code finished = return tt
  code (call function args k) = and_then (public impl resizing function args) (λ a. code (k a))

  -- What one call does when it runs alone, without a lock.
  abbrev pub by_itself : Function → Args → S → A × S
  by_itself truncate args s = run (impl setattr (resizing args)) s
  by_itself function args s = run (impl function args) s

  abbrev turn : ℕ → Client Args A → (ℕ → Client Args A) → S → (ℕ → Client Args A) × S
  turn t finished clients s = (clients, s)
  turn t (call function args k) clients s =
      let (r, s') = by_itself function args s in ((λ u. if u == t then k r else clients u), s')

  -- Whole calls, one after the other.
  abbrev pub serve : List ℕ → (ℕ → Client Args A) × S → (ℕ → Client Args A) × S
  serve [] x = x
  serve (t ∷ ts) (clients, s) = serve ts (turn t (clients t) clients s)

  abbrev pub codes : (ℕ → Client Args A) × S → (ℕ → Code S (Unit {0})) × S
  codes (clients, s) = ((λ t. code (clients t)), s)

  abbrev pub begin : (ℕ → Client Args A) → S → System S (Unit {0})
  begin clients s = record { codes = λ t. code (clients t); mutex = free; state = s }

  module _ (nested : (function : Function) (args : Args) → Nested 0 (impl function args)) where
    body-Nested : (function : Function) (args : Args) → Nested 0 (body impl resizing function args)
    body-Nested truncate args =
        and_then-Nested 0 (impl setattr (resizing args)) (nested setattr (resizing args))
    body-Nested function args = nested function args

    run-body :
        (function : Function) (args : Args) (s : S)
        → run (body impl resizing function args) s ≡ by_itself function args s
    run-body truncate args s = run-unlocking (impl setattr (resizing args)) s
    run-body function args s = refl

    code-Guarded : (client : Client Args A) → Guarded 0 (code client)
    code-Guarded finished = tt
    code-Guarded (call function args k) =
        bracket-Guarded (λ a. code (k a)) 0 (body impl resizing function args)
          (body-Nested function args) (λ a. code-Guarded (k a))

    codes_put :
        (t : ℕ) (c : Client Args A) (clients : ℕ → Client Args A)
        → put t (code c) (λ u. code (clients u)) ≡ (λ u. code (if u == t then c else clients u))
    codes_put t c clients =
        fun_ext
          λ u. elim (Bool-cases (u == t)) [ inl same ↦ rw same refl | inr other ↦ rw other refl ]

    section-codes :
        (t : ℕ) (client : Client Args A) (clients : ℕ → Client Args A) (s : S)
        → clients t ≡ client
        → section t (codes (clients, s)) ≡ codes (turn t client clients s)
    section-codes t finished clients s h =
        rw h (ap (λ x. (x, s)) (put_same t (return tt) (λ u. code (clients u)) (ap code h)))
    section-codes t (call function args k) clients s h =
        rw
          (
            h,
            finish-bracket (λ a. code (k a)) 0 (body impl resizing function args) s
                (body-Nested function args),
            run-body function args s,
          )
          (ap (λ x. (x, (by_itself function args s).1))
            (codes_put t (k (by_itself function args s).0) clients))

    sections-codes :
        (ts : List ℕ) (x : (ℕ → Client Args A) × S) → sections ts (codes x) ≡ codes (serve ts x)
    sections-codes [] x = refl
    sections-codes (t ∷ ts) (clients, s) =
        ap (sections ts) (section-codes t (clients t) clients s refl)
        ∙ sections-codes ts (turn t (clients t) clients s)

    -- If each operation, without its wrapper, gives back every lock that it takes and no other, then
    -- threads that call the public functions, as the results of their calls say, and take turns at
    -- single accesses in any order, come to what whole calls come to, one after the other in the
    -- order in which their threads take the free lock, each by its bare operation: the same state of
    -- the library, and for each thread the same calls left, where a call that is under way counts as
    -- brought to its end.
    pub serializable :
        (ts : List ℕ) (clients : ℕ → Client Args A) (s : S)
        → completed (steps ts (begin clients s))
          ≡ codes (serve (entries ts (begin clients s)) (clients, s))
    serializable ts clients s =
        steps-sections ts (begin clients s) (λ t. code-Guarded (clients t))
        ∙ sections-codes (entries ts (begin clients s)) (clients, s)

    -- If each operation gives back every lock that it takes and no other, then the lock never keeps a
    -- thread from its end for good: however the threads have taken turns so far, further turns bring
    -- any given thread to the end of all its calls, also where a public function calls another.
    pub can_finish :
        (ts : List ℕ) (clients : ℕ → Client Args A) (s : S) (t : ℕ)
        → (us : List ℕ) × ((steps us (steps ts (begin clients s))).codes t ≡ return tt)
    can_finish ts clients s t =
        let y = steps ts (begin clients s) in
        let (us, a, e) =
          can_end t y (steps-AllGuarded ts (begin clients s) (λ u. code-Guarded (clients u))) in
        (us, e)
