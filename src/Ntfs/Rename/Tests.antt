-- ===== src/Ntfs/Rename/Tests.antt =====
-- Renames on a table of names, on which only so many links can be made.
use usbrw.Base.{
  ℕ, zero, suc, ◌-◌, ◌≡◌, refl, true, false, ◌&&◌, ◌==◌, if◌then◌else◌, Option, none, some, [], ◌∷◌,
  arith,
}
use usbrw.Bridge.{enoent, enospc, eperm}
use usbrw.Ext.Engine.{Name}
use usbrw.Ext.Library.View.{put_name, same_name, put_name-same}
use usbrw.Ext.Reply.{Reply, done, failed}
use usbrw.Ntfs.Data.{Opening, opened, cannot}
use usbrw.Ntfs.Rename.{Engine, do_link, do_unlink, link, unlink, rename, tmp_name}
use usbrw.Ntfs.Rename.Handles.{plus, Handles}
use usbrw.Ntfs.Rename.Safety.{Names}

record Disk : Type 0 where
  names : ℕ → Name → Option ℕ
  links_left : ℕ

abbrev found : Option ℕ → Opening ℕ
found none = cannot enoent
found (some n) = opened n

abbrev add : ℕ → ℕ → ℕ → Name → Disk → Option ℕ × Disk
add zero n dir u d = (some enospc, d)
add (suc left) n dir u d =
    (none, record { names = put_name dir u (some n) d.names; links_left = left })

abbrev engine : Engine Disk
engine = record {
  inodes = record {
    file_extend = 11;
    first_user = 24;
    mbstoucs = λ name. opened name;
    open_inode = λ n d. (
      opened (record {
        is_directory = false;
        is_reparse = false;
        is_system = false;
        is_hidden = false;
      }),
      d,
    );
    close_inode = λ n d. (none, d);
    lookup_by_name = λ dir u d. (found (d.names dir u), d);
  };
  malloc_errno = none;
  delete = λ n dir u d. (none, record d { names = put_name dir u none d.names });
  link = λ n dir u d. add d.links_left n dir u d;
  set_archive_and_times = λ n dir d. d;
  check_empty_dir = λ n d. (none, d);
}

found_right : (o : Option ℕ) (n : ℕ) → found o ≡ opened n → o ≡ some n
found_right none n h = ground arith
found_right (some m) n h = ground arith

add_frame :
    (left n dir : ℕ) (u : Name) (d : ℕ) (x : Name) (s : Disk)
    → (d == dir && same_name x u) ≡ false
    → (add left n dir u s).1.names d x ≡ s.names d x
add_frame zero n dir u d x s h = refl
add_frame (suc left) n dir u d x s h = rw h refl

add_done :
    (left n dir : ℕ) (u : Name) (s : Disk)
    → (add left n dir u s).0 ≡ none
    → (add left n dir u s).1.names dir u ≡ some n
add_done zero n dir u s h = ground arith
add_done (suc left) n dir u s h = put_name-same dir u (some n) s.names

abbrev engine_names : Names engine (λ d. d.names)
engine_names = record {
  open_inode = λ n d. refl;
  close_inode = λ n d. refl;
  check_empty_dir = λ n d. refl;
  lookup = λ dir u d. refl;
  lookup_found = λ dir u d n h. found_right (d.names dir u) n h;
  marks = λ n dir d. refl;
  link_frame = λ n dir u d x s h. add_frame s.links_left n dir u d x s h;
  link_done = λ n dir u s h. add_done s.links_left n dir u s h;
  delete_frame = λ n dir u d x s h. rw h refl;
}

abbrev a : Name
a = b'a' ∷ []

abbrev b : Name
b = b'b' ∷ []

-- "a" and "b" in directory 5 are the files 64 and 65.
abbrev disk : ℕ → Disk
disk left = record {
  names = put_name 5 a (some 64) (put_name 5 b (some 65) (λ dir u. none));
  links_left = left;
}

abbrev renamed : ℕ → Reply (Unit {0}) × Disk
renamed left = (rename engine true 5 a 5 b 0 (disk left)).0

rename_over : ((renamed 9).0 ≡ done tt) × ((renamed 9).1.names 5 b ≡ some 64)
unfolding rename do_link do_unlink
rename_over = (refl, refl)

renamed_old_name : ((renamed 9).1.names 5 a ≡ none) × ((renamed 9).1.names 5 (tmp_name b 1) ≡ none)
unfolding rename tmp_name do_link do_unlink
renamed_old_name = (refl, refl)

-- With one link left the target gets its temporary name, and no name again after that.
target_lost :
    ((renamed 1).0 ≡ failed enospc)
    × ((renamed 1).1.names 5 a ≡ some 64)
    × ((renamed 1).1.names 5 b ≡ none)
    × ((renamed 1).1.names 5 (tmp_name b 1) ≡ none)
unfolding rename tmp_name do_link do_unlink
target_lost = (refl, refl, refl, refl)

link_metadata : (link engine true 5 5 b (disk 9)).0 ≡ failed eperm
unfolding link
link_metadata = refl

unlink_extend : (unlink engine true 11 b (disk 9)).0 ≡ failed eperm
unfolding unlink
unlink_extend = refl

abbrev minus : ℕ → (ℕ → ℕ) → ℕ → ℕ
minus n h m = if m == n then h m - 1 else h m

-- A library that only counts how often each inode is open; "a" is file 64 and "b" file 65, and
-- links fail.
abbrev counting : Engine (ℕ → ℕ)
counting = record {
  inodes = record {
    file_extend = 11;
    first_user = 24;
    mbstoucs = λ name. opened name;
    open_inode = λ n k. (
      opened (record {
        is_directory = false;
        is_reparse = false;
        is_system = false;
        is_hidden = false;
      }),
      plus n k,
    );
    close_inode = λ n k. (none, minus n k);
    lookup_by_name = λ dir u k. (opened (if same_name u a then 64 else 65), k);
  };
  malloc_errno = none;
  delete = λ n dir u k. (none, minus dir (minus n k));
  link = λ n dir u k. (some enospc, k);
  set_archive_and_times = λ n dir k. k;
  check_empty_dir = λ n k. (none, k);
}

-- Inode 64 is open twice, by others.
abbrev twice : ℕ → ℕ
twice n = if n == 64 then 2 else 0
