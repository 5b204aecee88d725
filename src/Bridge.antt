-- ===== src/Bridge.antt =====
-- What the C files share (ntfs_fskit.h): the block I/O callbacks of `nfsk_blockio`, the state
-- that a call may change, and the outcome of a call that returns -1 with errno set.
pub mod Mode
use usbrw.Base.{ℕ, Bool, List, Option, String}
use usbrw.Base.Int.{ℤ, pos}

-- `read(ctx, offset, len, buf)`: the return code and what is in `buf`. `W` is what stands
-- behind `ctx`: the medium, with whatever the callbacks change.
abbrev pub Reader : Type 0 → Type 0
Reader W = W → ℕ → ℕ → ℤ × List ℕ × W

-- `write(ctx, offset, len, buf)`: the bytes are the first `len` of `buf`.
abbrev pub Writer : Type 0 → Type 0
Writer W = W → ℕ → List ℕ → ℤ × W

abbrev pub Syncer : Type 0 → Type 0
Syncer W = W → ℤ × W

-- A callback that is NULL is `none`.
pub record BlockIo (W : Type 0) : Type 0 where
  pub read : Option (Reader W)
  pub write : Option (Writer W)
  pub sync : Option (Syncer W)
  pub readonly : Bool
  pub block_size : ℕ
  pub block_count : ℕ

-- One message of the debug channel: "%s rc=%d @%lld len=%zu".
pub record IoLog : Type 0 where
  pub op : String
  pub rc : ℤ
  pub off : ℕ
  pub len : ℕ

pub record Machine (W : Type 0) : Type 0 where
  pub disk : W
  pub errno : ℤ
  pub last_error : Option IoLog

-- `fail` is a return of -1, `fault` the call of a NULL pointer.
pub data Outcome (A : Type 0) : Type 0 where
  ok : A → Outcome A
  fail : Outcome A
  fault : Outcome A

abbrev pub Call : Type 0 → Type 0 → Type 0
Call W A = Machine W → Outcome A × Machine W

module _ {W A : Type 0} where
  abbrev pub pure : A → Call W A
  pure a m = (ok a, m)

  -- errno = e; return -1;
  abbrev pub fail_with : ℕ → Call W A
  fail_with e m = (fail, record m { errno = pos e })

module _ {W A B : Type 0} where
  abbrev pub and_then : Outcome A × Machine W → (A → Call W B) → Outcome B × Machine W
  and_then (ok a, m) k = k a m
  and_then (fail, m) k = (fail, m)
  and_then (fault, m) k = (fault, m)

  infixl 5 ◌>>=◌ ◌>>◌
  abbrev pub ◌>>=◌ : Call W A → (A → Call W B) → Call W B
  r >>= k = λ m. and_then (r m) k

  abbrev pub ◌>>◌ : Call W A → Call W B → Call W B
  r >> k = r >>= λ _. k

-- The errno values of macOS that the bridge names.
abbrev pub eperm : ℕ
eperm = 1

abbrev pub enoent : ℕ
enoent = 2

abbrev pub eio : ℕ
eio = 5

abbrev pub enomem : ℕ
enomem = 12

abbrev pub enotdir : ℕ
enotdir = 20

abbrev pub einval : ℕ
einval = 22

abbrev pub enotty : ℕ
enotty = 25

abbrev pub enospc : ℕ
enospc = 28

abbrev pub erofs : ℕ
erofs = 30

abbrev pub erange : ℕ
erange = 34

abbrev pub enametoolong : ℕ
enametoolong = 63

abbrev pub enoattr : ℕ
enoattr = 93

abbrev pub eopnotsupp : ℕ
eopnotsupp = 102

-- `nfsk_stat`: the attributes of a file, for both file systems.
pub record Stat : Type 0 where
  pub mft : ℕ
  pub mode : ℕ
  pub uid : ℕ
  pub gid : ℕ
  pub size : ℕ
  pub alloc_size : ℕ
  pub links : ℕ
  pub atime : ℕ
  pub mtime : ℕ
  pub ctime : ℕ
  pub btime : ℕ
  pub flags : ℕ

-- memset(&st, 0, sizeof(st))
abbrev pub blank_stat : Stat
blank_stat = record {
  mft = 0;
  mode = 0;
  uid = 0;
  gid = 0;
  size = 0;
  alloc_size = 0;
  links = 0;
  atime = 0;
  mtime = 0;
  ctime = 0;
  btime = 0;
  flags = 0;
}

-- `nfsk_statfs`.
pub record Statfs : Type 0 where
  pub total_bytes : ℕ
  pub free_bytes : ℕ
  pub bsize : ℕ
  pub total_files : ℕ
  pub free_files : ℕ
  pub name : List ℕ
