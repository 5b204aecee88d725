-- ===== src/Ntfs/Locks/Tests.antt =====
-- Two threads that add to a number, each by an access that reads it and one that writes it.
use usbrw.Base.{ℕ, zero, suc, ◌+◌, ◌≡◌, refl, List, [], ◌∷◌}
use usbrw.Ntfs.Locks.{Code, return, access, free, Function, write, truncate, System, steps}
use usbrw.Ntfs.Locks.Sections.{completed}
use usbrw.Ntfs.Locks.Clients.{Client, finished, call, begin, codes, serve, serializable, can_finish}

abbrev adding : ℕ → Code ℕ ℕ
adding n = access (λ s. s) (λ seen. access (λ s. seen + n) (λ _. return seen))

abbrev impl : Function → ℕ → Code ℕ ℕ
impl function n = adding n

abbrev resizing : ℕ → ℕ
resizing n = n + 100

abbrev clients : ℕ → Client ℕ ℕ
clients zero = call write 1 (λ seen. call write seen (λ _. finished))
clients (suc zero) = call truncate 20 (λ _. finished)
clients _ = finished

abbrev in_turn : ℕ → List ℕ
in_turn zero = []
in_turn (suc n) = 0 ∷ 1 ∷ in_turn n

abbrev turns : List ℕ
turns = in_turn 14

-- The state that the first thread finds is 5, to which it adds 1; the second adds 120, through a
-- call of a public function inside of another; the first adds the 5 that it found.
all_added : (steps turns (begin impl resizing clients 5)).state ≡ 131
all_added = refl

lock_given_back : (steps turns (begin impl resizing clients 5)).mutex ≡ free
lock_given_back = refl

abbrev unguarded : System ℕ ℕ
unguarded = record { codes = λ t. adding (t + 1); mutex = free; state = 5 }

-- Without the lock an addition is lost.
addition_lost : (steps (0 ∷ 1 ∷ 0 ∷ 1 ∷ []) unguarded).state ≡ 7
addition_lost = refl

serializable_example :
    completed (steps turns (begin impl resizing clients 5))
    ≡ codes impl resizing (serve impl resizing (0 ∷ 1 ∷ 0 ∷ []) (clients, 5))
serializable_example = serializable impl resizing (λ _ _ _ _. tt) turns clients 5

-- Thread 1 can get through while thread 0 is inside of its first call.
can_finish_example :
    (us : List ℕ) × ((steps us (steps (0 ∷ 0 ∷ []) (begin impl resizing clients 5))).codes 1
      ≡ return tt)
can_finish_example = can_finish impl resizing (λ _ _ _ _. tt) (0 ∷ 0 ∷ []) clients 5 1
