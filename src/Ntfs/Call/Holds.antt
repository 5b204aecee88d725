-- ===== src/Ntfs/Call/Holds.antt =====
-- Rules for what holds after an operation: of its result and the state, or of the state alone if
-- it failed.
use usbrw.Base.{ℕ, ◌≡◌, refl, Bool, true, false, Option, none, some}
use usbrw.Ext.Reply.{Reply, done, failed, hangs, Op, and_then, unless, after_failure, ◌>>=◌}
use usbrw.Ext.Engine.{Name}
use usbrw.Ntfs.Call.{
  unicode, uni, convert, Info, Inodes, iget, with_inode, succeed_or, obtained, after_close,
  afterwards,
}
use usbrw.Ntfs.Data.{Opening, opened, cannot}

-- A success with a result and a state, or a failure in a state, such as is told.
abbrev pub Holds : {S A : Type 0} → (A → S → Type 0) → (S → Type 0) → Reply A × S → Type 0
Holds Q F (done a, s) = Q a s
Holds Q F (failed _, s) = F s
Holds Q F (hangs, s) = ⊥

module _ {S : Type 0} (F : S → Type 0) where
  pub bind-Holds :
      {A B : Type 0} (Q : A → S → Type 0) (R : B → S → Type 0) (run : Reply A × S) (k : A → Op S B)
      → Holds Q F run
      → ((a : A) (s : S) → Q a s → Holds R F (k a s))
      → Holds R F (and_then run k)
  bind-Holds Q R (done a, s) k h rest = rest a s h
  bind-Holds Q R (failed _, s) k h rest = h
  bind-Holds Q R (hangs, s) k h rest = h

  pub unless-Holds :
      {A : Type 0} (Q : A → S → Type 0) (bad : Bool) (errno : ℕ) (op : Op S A) (s : S)
      → F s
      → Holds Q F (op s)
      → Holds Q F (unless bad errno op s)
  unless-Holds Q true errno op s f h = f
  unless-Holds Q false errno op s f h = h

  pub succeed_or-Holds :
      {A : Type 0} (Q : A → S → Type 0) (a : A) (run : Option ℕ × S)
      → F run.1
      → (run.0 ≡ none → Q a run.1)
      → Holds Q F (succeed_or a run)
  succeed_or-Holds Q a (none, s) f h = h refl
  succeed_or-Holds Q a (some _, s) f h = f

  pub obtained-Holds :
      {A : Type 0} (Q : A → S → Type 0) (run : Opening A × S)
      → F run.1
      → ((a : A) → run.0 ≡ opened a → Q a run.1)
      → Holds Q F (obtained run)
  obtained-Holds Q (opened a, s) f h = h a refl
  obtained-Holds Q (cannot _, s) f h = f

  obtained_name-Holds :
      {A : Type 0} (Q : A → S → Type 0) (uname : Opening Name) (k : Name → Op S A) (s : S)
      → F s
      → Holds Q F (k (unicode uname) s)
      → Holds Q F (and_then (obtained (uname, s)) k)
  obtained_name-Holds Q (opened u) k s f h = h
  obtained_name-Holds Q (cannot _) k s f h = f

  -- A name is converted first, which may fail.
  pub convert-Holds :
      {A : Type 0} (i : Inodes S) (Q : A → S → Type 0) (name : Name) (k : Name → Op S A) (s : S)
      → F s
      → Holds Q F (k (uni i name) s)
      → Holds Q F ((convert i name >>= k) s)
  convert-Holds i Q name k s f h = obtained_name-Holds Q (i.mbstoucs name) k s f h

  pub after_close-Holds :
      {A : Type 0} (Q : A → S → Type 0) (close : S → Option ℕ × S) (run : Reply A × S)
      → ((s : S) → F s → F (close s).1)
      → ((a : A) (s : S) → Q a s → F (close s).1 × Q a (close s).1)
      → Holds Q F run
      → Holds Q F (after_close close run)
  after_close-Holds Q close (done a, s) f q h =
      succeed_or-Holds Q a (close s) ((q a s h).0) (λ _. (q a s h).1)
  after_close-Holds Q close (failed _, s) f q h = f s h
  after_close-Holds Q close (hangs, s) f q h = h

  pub afterwards-Holds :
      {A : Type 0} (Q : A → S → Type 0) (clean : S → S) (run : Reply A × S)
      → ((s : S) → F s → F (clean s))
      → ((a : A) (s : S) → Q a s → Q a (clean s))
      → Holds Q F run
      → Holds Q F (afterwards clean run)
  afterwards-Holds Q clean (done a, s) f q h = q a s h
  afterwards-Holds Q clean (failed _, s) f q h = f s h
  afterwards-Holds Q clean (hangs, s) f q h = h

  pub after_failure-Holds :
      {A : Type 0} (Q : A → S → Type 0) (clean : S → S) (run : Reply A × S)
      → ((s : S) → F s → F (clean s))
      → Holds Q F run
      → Holds Q F (after_failure clean run)
  after_failure-Holds Q clean (done a, s) f h = h
  after_failure-Holds Q clean (failed _, s) f h = f s h
  after_failure-Holds Q clean (hangs, s) f h = h

  -- A weaker statement about the success.
  pub weaken-Holds :
      {A : Type 0} (Q R : A → S → Type 0) (run : Reply A × S)
      → ((a : A) (s : S) → Q a s → R a s)
      → Holds Q F run
      → Holds R F run
  weaken-Holds Q R (done a, s) w h = w a s h
  weaken-Holds Q R (failed _, s) w h = h
  weaken-Holds Q R (hangs, s) w h = h

-- What stands between opening and closing an inode, on a part of the state that neither changes.
module _ {S T A : Type 0} (i : Inodes S) (v : S → T)
    (opens : (n : ℕ) (s : S) → v (i.open_inode n s).1 ≡ v s)
    (closes : (n : ℕ) (s : S) → v (i.close_inode n s).1 ≡ v s) (Q : A → T → Type 0)
    (F : T → Type 0) where
  abbrev At : A → S → Type 0
  At a s = F (v s) × Q a (v s)

  abbrev On : S → Type 0
  On s = F (v s)

  pub with_inode-Holds :
      (mft : ℕ) (body : Info → Op S A) (s : S)
      → F (v s)
      → ((info : Info) (s' : S) → v s' ≡ v s → Holds At On (body info s'))
      → Holds At On (with_inode i mft body s)
  with_inode-Holds mft body s f h =
      bind-Holds On (λ _ s'. v s' ≡ v s) At (iget i mft s) _
        (obtained-Holds On (λ _ s'. v s' ≡ v s) (i.open_inode mft s) (rw (opens mft s) f)
          (λ _ _. opens mft s))
        λ info s' same.
          after_close-Holds On At (i.close_inode mft) (body info s') (λ s f. rw (closes mft s) f)
            (λ a s q. (rw (closes mft s) q.0, rw (closes mft s) q)) (h info s' same)
