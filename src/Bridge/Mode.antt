-- ===== src/Bridge/Mode.antt =====
-- The type bits of `st_mode`, which Linux and macOS share (sys/stat.h).
use usbrw.Base.{ℕ, bit_or}

abbrev pub ifmt : ℕ
ifmt = 0o170000

abbrev pub ififo : ℕ
ififo = 0o010000

abbrev pub ifchr : ℕ
ifchr = 0o020000

abbrev pub ifdir : ℕ
ifdir = 0o040000

abbrev pub ifblk : ℕ
ifblk = 0o060000

abbrev pub ifreg : ℕ
ifreg = 0o100000

abbrev pub iflnk : ℕ
iflnk = 0o120000

abbrev pub ifsock : ℕ
ifsock = 0o140000

-- S_IF... | 0777
abbrev pub full : ℕ → ℕ
full kind = bit_or kind 0o777
