-- ===== src/Ext.antt =====
-- ext_fskit.c: what the bridge to libext2fs shares. A library call returns an `errcode_t`, zero
-- for success, and hands its results over by pointers.
pub mod Channel
pub mod Engine
pub mod Library
pub mod Files
pub mod Tree
pub mod Rename
pub mod Dir
pub mod Open
pub mod Reply
mod Tests
use usbrw.Base.{ℕ}
use usbrw.Bridge.{Machine}

-- The codes that the bridge names; `system` is an errno value used as a code, and
-- `dirent_abort` the flag DIRENT_ABORT, which `extfsk_readdir` takes for no error.
pub data ErrCode : Type 0 where
  file_not_found no_memory inode_alloc_fail block_alloc_fail : ErrCode
  dir_no_space bad_device_name dirent_abort : ErrCode
  block_bitmap_csum_invalid inode_bitmap_csum_invalid : ErrCode
  system : ℕ → ErrCode
  other : ℕ → ErrCode

-- `diverges` is a loop whose rounds ran out.
pub data Result (A : Type 0) : Type 0 where
  ok : A → Result A
  err : ErrCode → Result A
  diverges : Result A

-- A call that may change the state `S`.
abbrev pub Act : Type 0 → Type 0 → Type 0
Act S A = S → Result A × S

module _ {S A : Type 0} where
  abbrev pub pure : A → Act S A
  pure a s = (ok a, s)

  abbrev pub raise : ErrCode → Act S A
  raise e s = (err e, s)

  abbrev pub exhaust : Act S A
  exhaust s = (diverges, s)

module _ {S A B : Type 0} where
  abbrev pub and_then : Result A × S → (A → Act S B) → Result B × S
  and_then (ok a, s) k = k a s
  and_then (err e, s) k = (err e, s)
  and_then (diverges, s) k = (diverges, s)

  infixl 5 ◌>>=◌ ◌>>◌
  abbrev pub ◌>>=◌ : Act S A → (A → Act S B) → Act S B
  r >>= k = λ s. and_then (r s) k

  abbrev pub ◌>>◌ : Act S A → Act S B → Act S B
  r >> k = r >>= λ _. k
