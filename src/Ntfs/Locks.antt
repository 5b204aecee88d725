-- ===== src/Ntfs/Locks.antt =====
-- The recursive lock of ntfs_fskit.c (lines 50 to 72) among threads, and the public functions at
-- the file's end, which take it around each operation (lines 1301 to 1412). An operation is seen as
-- the single accesses that it makes to the library, between which other threads may run.
mod Sections
mod Clients
mod Tests
use usbrw.Base.{ℕ, zero, suc, ◌==◌, if◌then◌else◌, List, [], ◌∷◌}

-- What a thread still has to do. An access changes the state of the library, and what comes after
-- may depend on the state that it found.
pub data Code (S A : Type 0) : Type 0 where
  return : A → Code S A
  access : (S → S) → (S → Code S A) → Code S A
  lock : Code S A → Code S A
  unlock : Code S A → Code S A

-- A mutex of pthread of the recursive type: who has it, and how many times more than once.
pub data Mutex : Type 0 where
  free : Mutex
  taken : (owner more : ℕ) → Mutex

-- How many times a thread has it.
abbrev pub depth_of : ℕ → Mutex → ℕ
depth_of t free = 0
depth_of t (taken u more) = if u == t then suc more else 0

-- Who is not the owner cannot unlock.
abbrev pub unlocked : ℕ → Mutex → Mutex
unlocked t free = free
unlocked t (taken u zero) = if u == t then free else taken u zero
unlocked t (taken u (suc more)) = if u == t then taken u more else taken u (suc more)

module _ {S A : Type 0} where
  abbrev pub and_then : {B : Type 0} → Code S A → (A → Code S B) → Code S B
  and_then (return a) k = k a
  and_then (access f c) k = access f (λ s. and_then (c s) k)
  and_then (lock c) k = lock (and_then c k)
  and_then (unlock c) k = unlock (and_then c k)

  -- int r; nfsk_lock(); r = nfsk_..._impl(...); nfsk_unlock(); return r;
  abbrev pub locked : Code S A → Code S A
  locked impl = lock (and_then impl (λ r. unlock (return r)))

  -- What code comes to when nothing else runs.
  abbrev pub run : Code S A → S → A × S
  run (return a) s = (a, s)
  run (access f c) s = run (c s) (f s)
  run (lock c) s = run c s
  run (unlock c) s = run c s

-- The functions of the bridge that take the lock around an operation.
pub data Function : Type 0 where
  fsstat getattr setattr lookup readdir create unlink link rename symlink readlink : Function
  read write truncate fsync getxattr setxattr removexattr listxattr : Function

-- The operations by their functions, and what `nfsk_truncate` makes of its arguments for
-- `nfsk_setattr`.
module _ {S Args A : Type 0} (impl : Function → Args → Code S A) (resizing : Args → Args) where
  -- `nfsk_truncate_impl` calls a public function, so it takes the lock once more.
  abbrev pub body : Function → Args → Code S A
  body truncate args = locked (impl setattr (resizing args))
  body function args = impl function args

  abbrev pub public : Function → Args → Code S A
  public function args = locked (body function args)

-- All threads, the mutex and the library.
pub record System (S A : Type 0) : Type 0 where
  pub codes : ℕ → Code S A
  pub mutex : Mutex
  pub state : S

module _ {S A : Type 0} where
  abbrev pub put : ℕ → Code S A → (ℕ → Code S A) → ℕ → Code S A
  put t c codes u = if u == t then c else codes u

  -- The next thing that a thread does, which is nothing while another thread has the lock.
  abbrev locking : ℕ → Code S A → Mutex → S → Code S A × Mutex × S
  locking t c free s = (c, taken t 0, s)
  locking t c (taken u more) s =
      if u == t then (c, taken u (suc more), s) else (lock c, taken u more, s)

  abbrev pub thread_move : ℕ → Code S A → Mutex → S → Code S A × Mutex × S
  thread_move t (return a) m s = (return a, m, s)
  thread_move t (access f c) m s = (c s, m, f s)
  thread_move t (lock c) m s = locking t c m s
  thread_move t (unlock c) m s = (c, unlocked t m, s)

  abbrev pub moved : ℕ → (ℕ → Code S A) → Code S A × Mutex × S → System S A
  moved t codes (c, m, s) = record { codes = put t c codes; mutex = m; state = s }

  abbrev pub step : ℕ → System S A → System S A
  step t y = moved t y.codes (thread_move t (y.codes t) y.mutex y.state)

  -- The threads run one access at a time, in any order.
  abbrev pub steps : List ℕ → System S A → System S A
  steps [] y = y
  steps (t ∷ ts) y = steps ts (step t y)
