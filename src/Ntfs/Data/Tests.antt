-- ===== src/Ntfs/Data/Tests.antt =====
-- Runs on a file of 100 bytes, of which the library transfers one byte at a time.
use usbrw.Base.{ℕ, ◌-◌, ◌<◌, ◌≡◌, refl, true, false, none, List, [], ◌∷◌, arith, min, length}
use usbrw.Base.Int.{pos}
use usbrw.Bytes.{Content, slice, overlay}
use usbrw.Ext.Reply.{done}
use usbrw.Ntfs.Data.{Engine, opened, read, write}
use usbrw.Ntfs.Data.Refines.{IsFile, Writes, nfsk_read_lem, nfsk_write_lem}

abbrev first : List ℕ → List ℕ
first [] = []
first (b ∷ bytes) = b ∷ []

abbrev engine : Engine Content
engine = record {
  first_user = 24;
  open_inode = λ mft c. (opened false, c);
  open_data = λ mft c. (opened tt, c);
  data_size = λ mft c. 100;
  pread = λ mft off size c. ((pos 1, 0, slice c off 1), c);
  pwrite = λ mft off bytes c. ((pos 1, 0), overlay c off (first bytes));
  update_atime = λ mft c. c;
  set_archive_and_times = λ mft c. c;
  close_data = λ mft c. c;
  close_inode = λ mft c. (none, c);
}

one_byte :
    (off : ℕ) (bytes : List ℕ) (c : Content)
    → 0 < length bytes
    → Writes engine 64 (λ c. c) off bytes c
one_byte off [] c h = elim h [ ]
one_byte off (b ∷ bytes) c h = record {
  less = 0;
  errno = 0;
  state = overlay c off (b ∷ []);
  fits = omega arith;
  returns = refl;
  puts = refl;
}

engine-IsFile : IsFile engine 64 (λ c. c)
engine-IsFile = record {
  open_inode = λ c. record { state = c; returns = refl; same_content = refl; same_size = refl };
  open_data = λ c. record { state = c; returns = refl; same_content = refl; same_size = refl };
  close_inode = λ c. record { state = c; returns = refl; same_content = refl; same_size = refl };
  close_data = λ c. refl;
  update_atime = λ c. refl;
  set_archive = λ c. refl;
  pread = λ off size c some_bytes inside. record {
    less = 0;
    errno = 0;
    bytes = slice c off 1;
    fits = some_bytes;
    read = record { state = c; returns = refl; same_content = refl; same_size = refl };
    right = refl;
  };
  pwrite = λ off bytes c some_bytes. one_byte off bytes c some_bytes;
}

nfsk_read_lem_example :
    (w : Content) × (read engine 64 true false 97 10 (λ x. x)
      ≡ (done (slice (λ x. x) 97 (min 10 (100 - 97))), w))
    × (w ≡ (λ x. x))
nfsk_read_lem_example = nfsk_read_lem engine-IsFile false 97 10 (λ x. x)

nfsk_write_lem_example :
    (w : Content) × (write engine 64 true 3 (1 ∷ 2 ∷ []) (λ x. x) ≡ (done 2, w))
    × (w ≡ overlay (λ x. x) 3 (1 ∷ 2 ∷ []))
nfsk_write_lem_example = nfsk_write_lem engine-IsFile 3 (1 ∷ 2 ∷ []) (λ x. x) (omega arith)
