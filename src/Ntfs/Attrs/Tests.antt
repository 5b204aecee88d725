-- ===== src/Ntfs/Attrs/Tests.antt =====
-- Attributes of files on a table of nodes. File 70 is compressed, with ten bytes that were written.
use usbrw.Base.{
  ℕ, ◌+◌, ◌≡◌, refl, Bool, true, false, ◌==◌, if◌then◌else◌, Option, none, some, [], ◌∷◌, arith,
}
use usbrw.Base.Int.{pos, negsuc}
use usbrw.Bridge.{Stat, Statfs, blank_stat, enoent}
use usbrw.Bridge.Mode
use usbrw.Ext.Reply.{Reply, done}
use usbrw.Ntfs.Attrs.{Node, Engine, symbolic_link, has, uf_hidden, fsstat, fsync}
use usbrw.Ntfs.Attrs.Change.{setattr, truncate}
use usbrw.Ntfs.Attrs.Change.Applied.{setattr-Chosen}
use usbrw.Ntfs.Attrs.Change.Laws.{View, max, Others, Attributes}
use usbrw.Ntfs.Attrs.Change.Stages.{Chosen}
use usbrw.Ntfs.Attrs.Inspect.{getattr, lookup}
use usbrw.Ntfs.Call.Holds.{Holds}
use usbrw.Ntfs.Data.{opened, cannot}

abbrev Nodes : Type 0
Nodes = ℕ → Node

abbrev change : ℕ → (Node → Node) → Nodes → Nodes
change n f t m = if m == n then f (t m) else t m

-- A node of a number, of a directory or a system file or neither.
abbrev node : ℕ → (directory system : Bool) → ℕ → Node
node n directory system size = record {
  mft_no = n;
  link_count = 2;
  is_reparse = false;
  is_directory = directory;
  is_system = system;
  is_hidden = false;
  data_size = size;
  allocated_size = 4096;
  last_access_time = 1;
  last_mft_change_time = 2;
  last_data_change_time = 3;
  creation_time = 4;
}

-- 5 is the root directory, 66 an Interix link.
abbrev nodes : Nodes
nodes n = node n (n == 5) (n == 66) 100

abbrev compressed : ℕ → Bool
compressed n = n == 70

abbrev to_mtime : ℕ → Node → Node
to_mtime x m = record m { last_data_change_time = x }

abbrev to_atime : ℕ → Node → Node
to_atime x m = record m { last_access_time = x }

abbrev to_btime : ℕ → Node → Node
to_btime x m = record m { creation_time = x }

abbrev engine : Engine Nodes
engine = record {
  inodes = record {
    file_extend = 11;
    first_user = 24;
    mbstoucs = λ name. opened name;
    open_inode = λ n t. (
      opened (record {
        is_directory = false;
        is_reparse = false;
        is_system = false;
        is_hidden = false;
      }),
      t,
    );
    close_inode = λ n t. (none, t);
    lookup_by_name = λ dir u t. (if dir == 5 then opened 66 else cannot enoent, t);
  };
  intx_header = 8;
  node = λ n t. t n;
  known_size = λ n t. true;
  index_sizes = λ n t. (none, t);
  cache_sizes =
      λ n sizes t. change n (λ m. record m { data_size = sizes.0; allocated_size = sizes.1 }) t;
  make_symlink = λ n t. (cannot enoent, t);
  open_data = λ n t. (
    opened (record {
      data_size = (t n).data_size;
      initialized_size = 10;
      is_compressed = compressed n;
    }),
    t,
  );
  close_data = λ n t. t;
  malloc_errno = λ n. none;
  pread_intx =
      λ n size t. ((pos size, 0, record { magic = symbolic_link; target = b'x' ∷ b'y' ∷ [] }), t);
  ucstombs = λ name. opened name;
  seconds = λ n. n;
  ntfs_time = λ n. n;
  truncate = λ n size t. (none, change n (λ m. record m { data_size = size }) t);
  put_zero =
      λ n off t. ((pos 1, 0), change n (λ m. record m { data_size = max m.data_size (off + 1) }) t);
  set_archive = λ n t. t;
  update_mctime = λ n t. change n (to_mtime 9) t;
  update_ctime = λ n t. t;
  set_data_change_time = λ n x t. change n (to_mtime x) t;
  set_access_time = λ n x t. change n (to_atime x) t;
  set_creation_time = λ n x t. change n (to_btime x) t;
  flags = λ n t. if (t n).is_hidden then 2 else 0;
  set_ntfs_attrib = λ n a t. (none, change n (λ m. record m { is_hidden = has 2 a }) t);
  free_space_known = λ t. false;
  get_free_space = λ t. t;
  volume = λ t. record {
    cluster_size = 4096;
    nr_clusters = 1000;
    free_clusters = pos 10;
    free_mft_records = negsuc 0;
    mftbmp_allocated = some 4096;
    vol_name = none;
  };
  device_sync = λ t. (done tt, t);
}

abbrev view : Nodes → ℕ → View
view t n = record {
  size = (t n).data_size;
  mtime = (t n).last_data_change_time;
  atime = (t n).last_access_time;
  btime = (t n).creation_time;
  is_hidden = (t n).is_hidden;
  is_compressed = compressed n;
}

others : (n : ℕ) (f : Node → Node) (t : Nodes) → Others n (view t) (view (change n f t))
others n f t m h = rw h refl

itself : (n : ℕ) (f : Node → Node) (t : Nodes) → change n f t n ≡ f (t n)
itself n f t = ground arith

engine-Attributes : Attributes engine view
engine-Attributes = record {
  open_inode = λ n t. refl;
  close_inode = λ n t. refl;
  open_data = λ n t. refl;
  opened_data = λ n t attr found. ground arith;
  close_data = λ n t. refl;
  set_archive = λ n t. refl;
  update_ctime = λ n t. refl;
  now = 9;
  put_zero_errno = λ n off t h. (0, refl);
  update_mctime = λ n t. (others n (to_mtime 9) t, rw (itself n (to_mtime 9) t) refl);
  set_data_change_time = λ x n t. (others n (to_mtime x) t, rw (itself n (to_mtime x) t) refl);
  set_access_time = λ x n t. (others n (to_atime x) t, rw (itself n (to_atime x) t) refl);
  set_creation_time = λ x n t. (others n (to_btime x) t, rw (itself n (to_btime x) t) refl);
  truncate_others = λ n size t. others n (λ m. record m { data_size = size }) t;
  truncate_done = λ n size t h. rw (itself n (λ m. record m { data_size = size }) t) refl;
  put_zero_others = λ n off t. others n (λ m. record m { data_size = max m.data_size (off + 1) }) t;
  put_zero_done =
      λ n off t k h. rw (itself n (λ m. record m { data_size = max m.data_size (off + 1) }) t) refl;
  attrib_others = λ n a t. others n (λ m. record m { is_hidden = has 2 a }) t;
  attrib_done = λ n a t h. rw (itself n (λ m. record m { is_hidden = has 2 a }) t) refl;
}

-- All data have 100 bytes and begin with the magic number of a link.
abbrev interix : Engine Nodes
interix = record engine {
  open_data = λ n t.
      (opened (record { data_size = 100; initialized_size = 100; is_compressed = false }), t);
}

abbrev wanted : Stat
wanted = record blank_stat { size = 50; mtime = 20; atime = 21; btime = 22; flags = uf_hidden }

setattr-Chosen_example :
    Holds
      (λ _ t.
        Others 64 (view nodes) (view t)
        × Chosen true true false false true (λ n. n) 9 wanted (view nodes 64) (view t 64))
      (λ t. Others 64 (view nodes) (view t))
      (setattr engine 64 true wanted 56 nodes)
unfolding engine-Attributes
setattr-Chosen_example = setattr-Chosen engine-Attributes 64 wanted 56 nodes true

-- A compressed file of 100 bytes, ten of which were ever written, cannot be cut to 50.
compressed_not_cut :
    ((truncate engine 70 true 50 nodes).0 ≡ done tt)
    × (((truncate engine 70 true 50 nodes).1 70).data_size ≡ 100)
unfolding truncate
compressed_not_cut = (refl, refl)

plain_cut : ((truncate engine 64 true 50 nodes).1 64).data_size ≡ 50
unfolding truncate
plain_cut = refl

abbrev mode_and_size : Reply Stat → ℕ × ℕ
mode_and_size (done st) = (st.mode, st.size)
mode_and_size _ = (0, 0)

link_found : mode_and_size (getattr engine 66 true nodes).0 ≡ (Mode.full Mode.iflnk, 2)
unfolding getattr
link_found = refl

abbrev number : Reply (ℕ × Option Stat) → ℕ
number (done (n, st)) = n
number _ = 0

looked_up : number (lookup engine true 5 (b'a' ∷ []) true nodes).0 ≡ 66
unfolding lookup
looked_up = refl

-- The free records are not known, so all are counted as free.
abbrev files : Reply Statfs → ℕ × ℕ
files (done st) = (st.free_files, st.total_files)
files _ = (0, 0)

free_files_unknown : files (fsstat engine true nodes).0 ≡ (32768, 32768)
unfolding fsstat
free_files_unknown = refl

synchronised : (fsync engine true nodes).0 ≡ done tt
unfolding fsync
synchronised = refl

-- A read of half of the data that sets no errno: the answer says success and lacks the times.
abbrev half_read : Engine Nodes
half_read = record interix {
  pread_intx = λ n size t. ((pos 50, 0, record { magic = symbolic_link; target = [] }), t);
}

half_answer : mode_and_size (getattr half_read 66 true nodes).0 ≡ (Mode.ifreg, 100)
unfolding getattr
half_answer = refl
