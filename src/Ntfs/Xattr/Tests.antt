-- ===== src/Ntfs/Xattr/Tests.antt =====
-- Extended attributes on a table of streams, where a write takes one byte at a time.
use usbrw.Base.{
  ℕ, zero, suc, ◌≡◌, ◌<◌, refl, Bool, true, false, ◌&&◌, ◌==◌, Option, none, some, List, [], ◌∷◌,
  if◌then◌else◌, ◌++◌, arith, take, length, take_all,
}
use usbrw.Base.Int.{pos}
use usbrw.Bridge.{enoent, enoattr, erange, eperm}
use usbrw.Ext.Engine.{Name}
use usbrw.Ext.Library.View.{same_name, same_name_refl}
use usbrw.Ext.Reply.{done, failed}
use usbrw.Ntfs.Call.{Info}
use usbrw.Ntfs.Call.Holds.{Holds}
use usbrw.Ntfs.Data.{Opening, opened, cannot}
use usbrw.Ntfs.Xattr.{
  Engine, size_only, content, getxattr, setxattr, removexattr, listxattr, xattr_ok,
}
use usbrw.Ntfs.Xattr.Listing.{deliver, shown, verdict, listxattr-deliver}
use usbrw.Ntfs.Xattr.Streams.{Table, Streams, Only}

abbrev put : ℕ → Name → Option (List ℕ) → Table → Table
put n u bytes t m x = if m == n && same_name x u then bytes else t m x

abbrev found : Option (List ℕ) → Opening (Unit {0})
found none = cannot enoent
found (some bytes) = opened tt

abbrev size_of : Option (List ℕ) → ℕ
size_of none = 0
size_of (some bytes) = length bytes

abbrev bytes_of : Option (List ℕ) → List ℕ
bytes_of none = []
bytes_of (some bytes) = bytes

abbrev first : List ℕ → List ℕ
first [] = []
first (b ∷ bytes) = b ∷ []

abbrev info : ℕ → Info
info n = record { is_directory = false; is_reparse = false; is_system = n == 5; is_hidden = false }

-- File 64 has an unnamed stream, one whose name cannot be converted, and "a" and "b".
abbrev engine : Engine Table
engine = record {
  inodes = record {
    file_extend = 11;
    first_user = 24;
    mbstoucs = λ name. opened name;
    open_inode = λ n t. (opened (info n), t);
    close_inode = λ n t. (none, t);
    lookup_by_name = λ dir u t. (cannot enoent, t);
  };
  open_stream = λ n u t. (found (t n u), t);
  close_stream = λ n u t. t;
  stream_size = λ n u t. size_of (t n u);
  pread = λ n u size t. ((pos size, 0, bytes_of (t n u)), t);
  pwrite = λ n u off bytes t.
      ((pos (length (first bytes)), 0), put n u (some (bytes_of (t n u) ++ first bytes)) t);
  truncate = λ n u t. (none, put n u (some []) t);
  add_stream = λ n u t. (none, put n u (some []) t);
  pclose = λ n u t. (none, t);
  remove = λ n u t. (none, put n u none t);
  update_ctime = λ n t. t;
  is_archive = λ n t. false;
  set_archive = λ n t. t;
  get_search_ctx = λ n t. (opened tt, t);
  put_search_ctx = λ n t. t;
  attributes = λ n t. ([] ∷ (b'a' ∷ []) ∷ (0 ∷ []) ∷ (b'b' ∷ []) ∷ [], enoent);
  ucstombs = λ u. if same_name u (0 ∷ []) then none else some u;
}

put-Only : (n : ℕ) (u : Name) (bytes : Option (List ℕ)) (t : Table) → Only n u t (put n u bytes t)
put-Only n u bytes t m x h = rw h refl

put_same : (n : ℕ) (u : Name) (bytes : Option (List ℕ)) (t : Table) → put n u bytes t n u ≡ bytes
put_same n u bytes t = ground (arith, same_name_refl u)

found_some : (o : Option (List ℕ)) → o ≡ none → found o ≡ opened tt → ⊥
found_some none h e = ground arith
found_some (some bytes) h e = ground arith

appended :
    (bytes old : List ℕ) (n : ℕ) (u : Name) (t : Table) (k : ℕ)
    → t n u ≡ some old
    → pos (length (first bytes)) ≡ pos (suc k)
    → (k < length bytes)
      × (put n u (some (bytes_of (t n u) ++ first bytes)) t n u ≡ some (old ++ take (suc k) bytes))
appended [] old n u t k h e = ground arith
appended (b ∷ bytes) old n u t (suc k) h e = ground arith
appended (b ∷ bytes) old n u t zero h e =
    (omega arith, rw (put_same n u (some (bytes_of (t n u) ++ (b ∷ []))) t, h) refl)

abbrev engine_streams : Streams engine (λ t. t)
engine_streams = record {
  open_inode = λ n t. refl;
  close_inode = λ n t. refl;
  open_stream = λ n u t. refl;
  close_stream = λ n u t. refl;
  pclose = λ n u t. refl;
  update_ctime = λ n t. refl;
  set_archive = λ n t. refl;
  pread = λ n u size t. refl;
  truncate_only = λ n u t. put-Only n u (some []) t;
  add_only = λ n u t. put-Only n u (some []) t;
  remove_only = λ n u t. put-Only n u none t;
  pwrite_only = λ n u off bytes t. put-Only n u (some (bytes_of (t n u) ++ first bytes)) t;
  pwrite_errno = λ n u off b bytes t h. (0, refl);
  open_missing = λ n u t h e. found_some (t n u) h e;
  truncate_done = λ n u t h. put_same n u (some []) t;
  add_done = λ n u t h. put_same n u (some []) t;
  remove_done = λ n u t h. put_same n u none t;
  pwrite_done = λ n u bytes old t k h e. appended bytes old n u t k h e;
  stream_size = λ n u bytes t h. rw h refl;
  pread_done = λ n u bytes t h e. rw h (take_all bytes);
}

abbrev a : Name
a = b'a' ∷ []

-- File 64 has the attribute "a".
abbrev volume : Table
volume = put 64 a (some (1 ∷ 2 ∷ 3 ∷ [])) (λ m x. none)

read_back : (getxattr engine 64 true a 8 volume).0 ≡ done (content (1 ∷ 2 ∷ 3 ∷ []))
unfolding getxattr
read_back = refl

query_size : (getxattr engine 64 true a 0 volume).0 ≡ done (size_only 3)
unfolding getxattr
query_size = refl

small_buffer : (getxattr engine 64 true a 2 volume).0 ≡ failed erange
unfolding getxattr
small_buffer = refl

missing : (getxattr engine 65 true a 8 volume).0 ≡ failed enoattr
unfolding getxattr
missing = refl

overwritten : (setxattr engine 64 true a (7 ∷ 8 ∷ []) volume).1 64 a ≡ some (7 ∷ 8 ∷ [])
unfolding setxattr
overwritten = refl

system_file : (setxattr engine 5 true a (7 ∷ []) volume).0 ≡ failed eperm
unfolding setxattr
system_file = refl

removed : (removexattr engine 64 true a volume).1 64 a ≡ none
unfolding removexattr
removed = refl

abbrev collect : List Name → Name → Bool × List Name
collect names name = (false, names ++ (name ∷ []))

listxattr-deliver_example :
    let (stopped, names) =
      deliver collect (shown engine.ucstombs (engine.attributes 64 volume).0) [] in
    let ((reply, t), names') = listxattr engine 64 collect true [] volume in
    (names' ≡ names) × (reply ≡ verdict collect engine 64 enoent stopped)
unfolding xattr_ok
listxattr-deliver_example =
    listxattr-deliver collect engine 64 enoent (engine.attributes 64 volume).0 (info 64) [] volume
      volume volume volume refl refl refl refl refl

listed : (listxattr engine 64 collect true [] volume).1 ≡ a ∷ (b'b' ∷ []) ∷ []
unfolding listxattr
listed = refl

-- A library whose writes take nothing and set no errno: the call succeeds, and the value is lost.
abbrev stuck : Engine Table
stuck = record engine { pwrite = λ n u off bytes t. ((pos 0, 0), t) }

stuck_write :
    ((setxattr stuck 64 true a (9 ∷ []) volume).0 ≡ done tt)
    × ((setxattr stuck 64 true a (9 ∷ []) volume).1 64 a ≡ some [])
unfolding setxattr
stuck_write = (refl, refl)
