-- ===== src/Ext/Reply.antt =====
-- What the operations of ext_fskit.c return: 0 or a count, or -errno.
use usbrw.Base.{ℕ, ◌≡◌, refl, arith, Bool, if◌then◌else◌}
use usbrw.Bridge.{enoent, eio, enomem, enospc}
use usbrw.Ext.{
  ErrCode, file_not_found, no_memory, inode_alloc_fail, block_alloc_fail, Result, ok, err, diverges,
  Act,
}

-- `failed e` is a return of -e.
pub data Reply (A : Type 0) : Type 0 where
  done : A → Reply A
  failed : ℕ → Reply A
  hangs : Reply A

abbrev pub Op : Type 0 → Type 0 → Type 0
Op S A = S → Reply A × S

module _ {S A : Type 0} where
  abbrev pub return : A → Op S A
  return a s = (done a, s)

  abbrev pub refuse : ℕ → Op S A
  refuse e s = (failed e, s)

module _ {S A B : Type 0} where
  abbrev pub and_then : Reply A × S → (A → Op S B) → Reply B × S
  and_then (done a, s) k = k a s
  and_then (failed e, s) k = (failed e, s)
  and_then (hangs, s) k = (hangs, s)

  infixl 5 ◌>>=◌ ◌>>◌
  abbrev pub ◌>>=◌ : Op S A → (A → Op S B) → Op S B
  r >>= k = λ s. and_then (r s) k

  abbrev pub ◌>>◌ : Op S A → Op S B → Op S B
  r >> k = r >>= λ _. k

-- A chain that succeeds, cut after its first call.
pub record Passes {S A B : Type 0} (run : Reply A × S) (k : A → Op S B) (b : B) (w : S)
    : Type 0 where
  pub value : A
  pub state : S
  pub first : run ≡ (done value, state)
  pub rest : k value state ≡ (done b, w)

pub and_then-Passes :
    {S A B : Type 0} (run : Reply A × S) (k : A → Op S B) (b : B) (w : S)
    → and_then run k ≡ (done b, w)
    → Passes run k b w
and_then-Passes (done a, s) k b w h = record { value = a; state = s; first = refl; rest = h }
and_then-Passes (failed e, s) k b w h = ground arith
and_then-Passes (hangs, s) k b w h = ground arith

pub translate_errno : ErrCode → ℕ
translate_errno file_not_found = enoent
translate_errno no_memory = enomem
translate_errno inode_alloc_fail = enospc
translate_errno block_alloc_fail = enospc
translate_errno _ = eio

module _ {S A : Type 0} where
  -- if (err) return f(err);
  abbrev pub or_reply : (ErrCode → ℕ) → Result A × S → Reply A × S
  or_reply f (ok a, s) = (done a, s)
  or_reply f (err e, s) = (failed (f e), s)
  or_reply f (diverges, s) = (hangs, s)

  -- if (err) return translate_errno(err);
  abbrev pub translated : Act S A → Op S A
  translated act s = or_reply translate_errno (act s)

  -- if (err) return -EIO;
  abbrev pub or_eio : Act S A → Op S A
  or_eio act s = or_reply (λ _. eio) (act s)

  -- The guards for NULL pointers and for arguments.
  abbrev pub unless : Bool → ℕ → Op S A → Op S A
  unless bad e op = if bad then refuse e else op

  -- if (err) { clean up; return ...; }
  abbrev pub after_failure : (S → S) → Reply A × S → Reply A × S
  after_failure clean (done a, s) = (done a, s)
  after_failure clean (failed e, s) = (failed e, clean s)
  after_failure clean (hangs, s) = (hangs, s)

  abbrev pub cleaning : (S → S) → Op S A → Op S A
  cleaning clean op s = after_failure clean (op s)
