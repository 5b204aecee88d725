-- ===== src/Mount/Opts.antt =====
-- The bits of `opts` (ntfs_fskit.h).
use usbrw.Base.{ℕ, Bool, not, bit_and, ◌==◌}

abbrev pub remove_hiberfile : ℕ
remove_hiberfile = 0x1

abbrev pub windows_names : ℕ
windows_names = 0x2

abbrev pub hide_hid_files : ℕ
hide_hid_files = 0x4

abbrev pub hide_dot_files : ℕ
hide_dot_files = 0x8

abbrev pub noatime : ℕ
noatime = 0x10

abbrev pub norecover : ℕ
norecover = 0x20

abbrev pub no_compression : ℕ
no_compression = 0x40

abbrev pub show_sys_files : ℕ
show_sys_files = 0x80

-- opts & flag
abbrev pub has : ℕ → ℕ → Bool
has opts flag = not (bit_and opts flag == 0)
