-- ===== src/Ntfs/Tests.antt =====
-- Runs of the enumeration of an NTFS directory that holds ".", "A", its DOS alias, and "b".
use usbrw.Base.{ℕ, ◌≡◌, refl, Bool, true, false, none, some, List, [], ◌∷◌, arith}
use usbrw.Bridge.{eio}
use usbrw.Ntfs.Readdir.{Library, Entry, Dir, dt_other, readdir}
use usbrw.Ntfs.Readdir.Delivery.{
  answer, Reads, walk, entries_from, shown, items, deliver, readdir-deliver,
}
use usbrw.Ntfs.Readdir.Resume.{Packer, pack, Above, readdir_resumes}

abbrev entry : List ℕ → Bool → ℕ → ℕ → Entry
entry name is_dos position number = record {
  name = name;
  is_dos = is_dos;
  position = position;
  number = number;
  dt_type = dt_other;
}

abbrev entries : List Entry
entries =
    entry (b'.' ∷ []) false 0 5
    ∷ entry (b'A' ∷ []) false 4 64
    ∷ entry (b'A' ∷ []) true 5 64
    ∷ entry (b'b' ∷ []) false 6 65
    ∷ []

abbrev folder : Dir
folder = record { is_directory = true; close_errno = none }

abbrev library : Library
library = record {
  open_inode = λ mft. none;
  ucstombs = λ name. some name;
  open_dir = λ mft. some folder;
  open_errno = eio;
  read_entries = λ P dir cookie f p. walk 0 9 (entries_from cookie entries) f p;
}

library-Reads : Reads library 5 entries 0 9
library-Reads = λ P cookie f p. refl

abbrev empty : Packer
empty = record { room = 1; got = []; last = 0 }

readdir-deliver_example :
    let (result, p) = deliver library false 9 pack (items library false 9 (shown entries)) empty in
    (position : ℕ) × (readdir library false pack true 5 0 empty
      ≡ ((answer result none, position), p))
readdir-deliver_example =
    readdir-deliver library false pack 5 0 0 9 entries folder empty refl refl library-Reads

entries-Above : Above 0 9 entries
entries-Above = (omega arith, (omega arith, (omega arith, (omega arith, omega arith))))

readdir_resumes_example :
    let (_, p) = readdir library false pack true 5 0 empty in
    let (_, p') =
      readdir library false pack true 5 p.last (record { room = 3; got = p.got; last = p.last }) in
    p'.got ≡ items library false 9 (shown entries)
readdir_resumes_example =
    readdir_resumes library false 5 0 0 0 9 entries folder 1 3 refl refl library-Reads entries-Above
      (omega arith)
