-- ===== src/Ntfs/Call/Keeps.antt =====
-- What an operation leaves unchanged, or establishes, put together along its steps.
use usbrw.Base.{ℕ, ◌≡◌, refl, ◌∙◌, Bool, true, false, Option, none, some, arith}
use usbrw.Ext.Reply.{
  Reply, done, failed, hangs, Op, and_then, ◌>>=◌, unless, after_failure, cleaning,
}
use usbrw.Ntfs.Call.{succeed_or, obtained, after_close, closing}
use usbrw.Ntfs.Data.{Opening, opened, cannot}

-- The part `v` of the state stays.
pub record Keeps {S V A : Type 0} (v : S → V) (op : Op S A) : Type 0 where
  pub keeps : (s : S) → v (op s).1 ≡ v s

-- If the operation succeeds, the part `v` of the state is `w`.
pub record Sets {S V A : Type 0} (v : S → V) (w : V) (op : Op S A) : Type 0 where
  pub sets : (s : S) (a : A) → (op s).0 ≡ done a → v (op s).1 ≡ w

-- The operation returns.
pub record Returns {S A : Type 0} (op : Op S A) : Type 0 where
  pub returns : (s : S) → (op s).0 ≡ hangs → ⊥

module _ {S V : Type 0} (v : S → V) where
  pub succeed_or_kept : {A : Type 0} (a : A) (run : Option ℕ × S) → v (succeed_or a run).1 ≡ v run.1
  succeed_or_kept a (none, s) = refl
  succeed_or_kept a (some errno, s) = refl

  pub obtained_kept : {A : Type 0} (run : Opening A × S) → v (obtained run).1 ≡ v run.1
  obtained_kept (opened a, s) = refl
  obtained_kept (cannot errno, s) = refl

module _ {S V : Type 0} {v : S → V} where
  bind_kept :
      {A B : Type 0} (run : Reply A × S) (k : A → Op S B) (w : V)
      → v run.1 ≡ w
      → ((a : A) → Keeps v (k a))
      → v (and_then run k).1 ≡ w
  bind_kept (done a, s) k w h rest = (rest a).keeps s ∙ h
  bind_kept (failed errno, s) k w h rest = h
  bind_kept (hangs, s) k w h rest = h

  pub bind-Keeps :
      {A B : Type 0} {r : Op S A} {k : A → Op S B}
      → Keeps v r
      → ((a : A) → Keeps v (k a))
      → Keeps v (r >>= k)
  bind-Keeps {r} {k} h rest = record { keeps = λ s. bind_kept (r s) k (v s) (h.keeps s) rest }

  set_along :
      {A B : Type 0} (run : Reply A × S) (k : A → Op S B) (w : V)
      → ((a : A) → Sets v w (k a))
      → (b : B) → (and_then run k).0 ≡ done b
      → v (and_then run k).1 ≡ w
  set_along (done a, s) k w rest b success = (rest a).sets s b success
  set_along (failed _, s) k w rest b success = ground arith
  set_along (hangs, s) k w rest b success = ground arith

  pub bind-Sets :
      {A B : Type 0} {w : V} (r : Op S A) {k : A → Op S B}
      → ((a : A) → Sets v w (k a))
      → Sets v w (r >>= k)
  bind-Sets {w} r {k} rest = record { sets = λ s. set_along (r s) k w rest }

  cleaning_kept :
      {A : Type 0} (clean : S → S) (run : Reply A × S)
      → ((s : S) → v (clean s) ≡ v s)
      → v (after_failure clean run).1 ≡ v run.1
  cleaning_kept clean (done a, s) h = refl
  cleaning_kept clean (failed errno, s) h = h s
  cleaning_kept clean (hangs, s) h = refl

  pub cleaning-Keeps :
      {A : Type 0} {clean : S → S} {op : Op S A}
      → Keeps v op
      → ((s : S) → v (clean s) ≡ v s)
      → Keeps v (cleaning clean op)
  cleaning-Keeps {clean} {op} h cleans = record {
    keeps = λ s. cleaning_kept clean (op s) cleans ∙ h.keeps s;
  }

  after_close_kept :
      {A : Type 0} (close : S → Option ℕ × S) (run : Reply A × S)
      → ((s : S) → v (close s).1 ≡ v s)
      → v (after_close close run).1 ≡ v run.1
  after_close_kept close (done a, s) h = succeed_or_kept v a (close s) ∙ h s
  after_close_kept close (failed errno, s) h = h s
  after_close_kept close (hangs, s) h = refl

  pub closing-Keeps :
      {A : Type 0} (close : S → Option ℕ × S) {op : Op S A}
      → ((s : S) → v (close s).1 ≡ v s)
      → Keeps v op
      → Keeps v (closing close op)
  closing-Keeps close {op} closes h = record {
    keeps = λ s. after_close_kept close (op s) closes ∙ h.keeps s;
  }

  after_close_sets :
      {A : Type 0} (close : S → Option ℕ × S) (run : Reply A × S) (w : V) (b : A)
      → ((s : S) → v (close s).1 ≡ v s)
      → ((a : A) → run.0 ≡ done a → v run.1 ≡ w)
      → (after_close close run).0 ≡ done b
      → v (after_close close run).1 ≡ w
  after_close_sets close (done a, s) w b h sets success =
      succeed_or_kept v a (close s) ∙ h s ∙ sets a refl
  after_close_sets close (failed _, s) w b h sets success = ground arith
  after_close_sets close (hangs, s) w b h sets success = ground arith

  pub closing-Sets :
      {A : Type 0} {w : V} (close : S → Option ℕ × S) {op : Op S A}
      → ((s : S) → v (close s).1 ≡ v s)
      → Sets v w op
      → Sets v w (closing close op)
  closing-Sets {w} close {op} closes h = record {
    sets = λ s b. after_close_sets close (op s) w b closes (h.sets s);
  }

  pub unless-Keeps :
      {A : Type 0} (bad : Bool) (errno : ℕ) {op : Op S A}
      → Keeps v op
      → Keeps v (unless bad errno op)
  unless-Keeps true errno h = record { keeps = λ s. refl }
  unless-Keeps false errno h = h

  pub unless-Sets :
      {A : Type 0} {w : V} (bad : Bool) (errno : ℕ) {op : Op S A}
      → Sets v w op
      → Sets v w (unless bad errno op)
  unless-Sets true errno h = record { sets = λ s a success. ground arith }
  unless-Sets false errno h = h

  then_sets :
      {A B : Type 0} (run : Reply A × S) (k : A → Op S B) (w : V)
      → ((a : A) → run.0 ≡ done a → v run.1 ≡ w)
      → ((a : A) → Keeps v (k a))
      → (b : B) → (and_then run k).0 ≡ done b
      → v (and_then run k).1 ≡ w
  then_sets (done a, s) k w h rest b success = (rest a).keeps s ∙ h a refl
  then_sets (failed _, s) k w h rest b success = ground arith
  then_sets (hangs, s) k w h rest b success = ground arith

  pub then-Sets :
      {A B : Type 0} {w : V} {r : Op S A} {k : A → Op S B}
      → Sets v w r
      → ((a : A) → Keeps v (k a))
      → Sets v w (r >>= k)
  then-Sets {w} {r} {k} h rest = record { sets = λ s. then_sets (r s) k w (h.sets s) rest }

module _ {S : Type 0} where
  ends_along :
      {A B : Type 0} (run : Reply A × S) (k : A → Op S B)
      → (run.0 ≡ hangs → ⊥)
      → ((a : A) → Returns (k a))
      → (and_then run k).0 ≡ hangs
      → ⊥
  ends_along (done a, s) k h rest e = (rest a).returns s e
  ends_along (failed _, s) k h rest e = ground arith
  ends_along (hangs, s) k h rest e = h refl

  pub bind-Returns :
      {A B : Type 0} {r : Op S A} {k : A → Op S B}
      → Returns r
      → ((a : A) → Returns (k a))
      → Returns (r >>= k)
  bind-Returns {r} {k} h rest = record { returns = λ s. ends_along (r s) k (h.returns s) rest }

  after_failure_returns :
      {A : Type 0} (clean : S → S) (run : Reply A × S)
      → (run.0 ≡ hangs → ⊥)
      → (after_failure clean run).0 ≡ hangs
      → ⊥
  after_failure_returns clean (done a, s) h e = h e
  after_failure_returns clean (failed _, s) h e = ground arith
  after_failure_returns clean (hangs, s) h e = h e

  pub cleaning-Returns :
      {A : Type 0} (clean : S → S) {op : Op S A} → Returns op → Returns (cleaning clean op)
  cleaning-Returns clean {op} h = record {
    returns = λ s. after_failure_returns clean (op s) (h.returns s);
  }

  succeed_or_returns : {A : Type 0} (a : A) (run : Option ℕ × S) → (succeed_or a run).0 ≡ hangs → ⊥
  succeed_or_returns a (none, s) e = ground arith
  succeed_or_returns a (some _, s) e = ground arith

  obtained_returns : {A : Type 0} (run : Opening A × S) → (obtained run).0 ≡ hangs → ⊥
  obtained_returns (opened a, s) e = ground arith
  obtained_returns (cannot _, s) e = ground arith

  pub succeed_or-Returns :
      {A : Type 0} (a : A) (call : S → Option ℕ × S) → Returns (λ s. succeed_or a (call s))
  succeed_or-Returns a call = record { returns = λ s. succeed_or_returns a (call s) }

  pub obtained-Returns : {A : Type 0} (call : S → Opening A × S) → Returns (λ s. obtained (call s))
  obtained-Returns call = record { returns = λ s. obtained_returns (call s) }

  after_close_returns :
      {A : Type 0} (close : S → Option ℕ × S) (run : Reply A × S)
      → (run.0 ≡ hangs → ⊥)
      → (after_close close run).0 ≡ hangs
      → ⊥
  after_close_returns close (done a, s) h e = succeed_or_returns a (close s) e
  after_close_returns close (failed _, s) h e = ground arith
  after_close_returns close (hangs, s) h e = h e

  pub closing-Returns :
      {A : Type 0} (close : S → Option ℕ × S) {op : Op S A}
      → Returns op
      → Returns (closing close op)
  closing-Returns close {op} h = record {
    returns = λ s. after_close_returns close (op s) (h.returns s);
  }

  pub return-Returns : {A : Type 0} (a : A) (f : S → S) → Returns (λ s. (done a, f s))
  return-Returns a f = record { returns = λ s e. ground arith }

  pub unless-Returns :
      {A : Type 0} (bad : Bool) (errno : ℕ) {op : Op S A}
      → Returns op
      → Returns (unless bad errno op)
  unless-Returns true errno h = record { returns = λ s e. ground arith }
  unless-Returns false errno h = h
