-- ===== src/Ntfs/Create/Tests.antt =====
-- New files and links on a table of names.
use usbrw.Base.{
  ℕ, ◌+◌, ◌*◌, ◌≡◌, refl, Bool, true, false, ◌&&◌, ◌==◌, if◌then◌else◌, Option, none, some, List,
  [], ◌∷◌, length, arith, Bool-cases, inl, inr,
}
use usbrw.Base.Int.{pos}
use usbrw.Bridge.{einval, enoent}
use usbrw.Ext.Engine.{Name}
use usbrw.Ext.Library.View.{put, put_name, put_name-same, same_name, same_name→≡}
use usbrw.Ext.Reply.{done, failed}
use usbrw.Ntfs.Attrs
use usbrw.Ntfs.Attrs.{symbolic_link}
use usbrw.Ntfs.Call.{Info}
use usbrw.Ntfs.Call.Holds.{Holds}
use usbrw.Ntfs.Create.{Engine, create, symlink, readlink, hex_digits}
use usbrw.Ntfs.Create.Links.{Links}
use usbrw.Ntfs.Create.News.{View, Only, Creates, IsNew, create-IsNew}
use usbrw.Ntfs.Data.{Opening, opened, cannot}

record Disk : Type 0 where
  names : ℕ → Name → Option ℕ
  is_directory : ℕ → Bool
  links : ℕ → Option Name
  next : ℕ

-- 17: the name is there.
abbrev add : Option ℕ → ℕ → Name → Bool → Option Name → Disk → Opening ℕ × Disk
add (some n) dir u directory target d = (cannot 17, d)
add none dir u directory target d = (
  opened d.next,
  record {
    names = put_name dir u (some d.next) d.names;
    is_directory = put d.next directory d.is_directory;
    links = put d.next target d.links;
    next = d.next + 1;
  },
)

abbrev is_link : Option Name → Bool
is_link none = false
is_link (some target) = true

abbrev target_of : Option Name → Name
target_of none = []
target_of (some target) = target

abbrev info : Option Name → Info
info link = record {
  is_directory = false;
  is_reparse = false;
  is_system = is_link link;
  is_hidden = false;
}

abbrev attrs : Attrs.Engine Disk
attrs = record {
  inodes = record {
    file_extend = 11;
    first_user = 24;
    mbstoucs = λ name. opened name;
    open_inode = λ n d. (opened (info (d.links n)), d);
    close_inode = λ n d. (none, d);
    lookup_by_name = λ dir u d. (cannot enoent, d);
  };
  intx_header = 8;
  node = λ n d. record {
    mft_no = n;
    link_count = 1;
    is_reparse = false;
    is_directory = d.is_directory n;
    is_system = false;
    is_hidden = false;
    data_size = 0;
    allocated_size = 0;
    last_access_time = 0;
    last_mft_change_time = 0;
    last_data_change_time = 0;
    creation_time = 0;
  };
  known_size = λ n d. true;
  index_sizes = λ n d. (none, d);
  cache_sizes = λ n sizes d. d;
  make_symlink = λ n d. (cannot enoent, d);
  open_data = λ n d. (
    opened (record {
      data_size = 8 + 2 * length (target_of (d.links n));
      initialized_size = 0;
      is_compressed = false;
    }),
    d,
  );
  close_data = λ n d. d;
  malloc_errno = λ n. none;
  pread_intx = λ n size d.
      ((pos size, 0, record { magic = symbolic_link; target = target_of (d.links n) }), d);
  ucstombs = λ name. opened name;
  seconds = λ n. n;
  ntfs_time = λ n. n;
  truncate = λ n size d. (none, d);
  put_zero = λ n off d. ((pos 1, 0), d);
  set_archive = λ n d. d;
  update_mctime = λ n d. d;
  update_ctime = λ n d. d;
  set_data_change_time = λ n x d. d;
  set_access_time = λ n x d. d;
  set_creation_time = λ n x d. d;
  flags = λ n d. 0;
  set_ntfs_attrib = λ n a d. (none, d);
  free_space_known = λ d. true;
  get_free_space = λ d. d;
  volume = λ d. record {
    cluster_size = 4096;
    nr_clusters = 1000;
    free_clusters = pos 10;
    free_mft_records = pos 10;
    mftbmp_allocated = none;
    vol_name = none;
  };
  device_sync = λ d. (done tt, d);
}

-- Windows forbids a name that begins with "?".
abbrev asks : Name → Option ℕ
asks [] = none
asks (c ∷ name) = if c == b'?' then some einval else none

abbrev engine : Engine Disk
engine = record {
  attrs = attrs;
  forbidden = asks;
  create = λ dir u directory d. add (d.names dir u) dir u directory none d;
  create_symlink = λ dir u target d. add (d.names dir u) dir u false (some target) d;
  mark_new = λ n d. d;
  close_in_dir = λ n dir d. (none, d);
  update_mctime = λ n d. d;
  reparse_tag = λ n d. 0;
}

abbrev view : Disk → View
view d = record { names = d.names; is_directory = d.is_directory }

put_free :
    (dir : ℕ) (u : Name) (n : ℕ) (names : ℕ → Name → Option ℕ) (d : ℕ) (x : Name) (m : ℕ)
    → names dir u ≡ none
    → names d x ≡ some m
    → put_name dir u (some n) names d x ≡ some m
put_free dir u n names d x m free named = elim (Bool-cases (d == dir && same_name x u)) [
  | inl same ↦
      let there : d ≡ dir = ground arith in let name : x ≡ u = same_name→≡ x u (ground arith) in cc
  | inr other ↦ rw other named
]

put_same : {A : Type 0} (n : ℕ) (a : A) (f : ℕ → A) → put n a f n ≡ a
put_same n a f = ground arith

add-Only :
    (o : Option ℕ) (dir : ℕ) (u : Name) (directory : Bool) (target : Option Name) (d : Disk)
    → d.names dir u ≡ o
    → Only dir u (view d) (view (add o dir u directory target d).1)
add-Only (some n) dir u directory target d h = record {
  elsewhere = λ d x h. refl;
  kept = λ d x m h. h;
}
add-Only none dir u directory target d h = record {
  elsewhere = λ d' x other. rw other refl;
  kept = λ d' x m named. put_free dir u d.next d.names d' x m h named;
}

add_done :
    (o : Option ℕ) (dir : ℕ) (u : Name) (directory : Bool) (target : Option Name) (d : Disk) (n : ℕ)
    → (add o dir u directory target d).0 ≡ opened n
    → (o ≡ none)
      × ((add o dir u directory target d).1.names dir u ≡ some n)
      × ((add o dir u directory target d).1.is_directory n ≡ directory)
      × ((add o dir u directory target d).1.links n ≡ target)
add_done (some m) dir u directory target d n h = ground arith
add_done none dir u directory target d n h =
    let e : d.next ≡ n = ground arith in
    rw (← e) (
      refl,
      put_name-same dir u (some d.next) d.names,
      put_same d.next directory d.is_directory,
      put_same d.next target d.links,
    )

abbrev engine_creates : Creates engine view
engine_creates = record {
  open_inode = λ n d. refl;
  close_inode = λ n d. refl;
  mark_new = λ n d. refl;
  close_in_dir = λ n dir d. refl;
  update_mctime = λ n d. refl;
  create_only = λ dir u directory d. add-Only (d.names dir u) dir u directory none d refl;
  create_done = λ dir u directory d n h.
      let made = add_done (d.names dir u) dir u directory none d n h in (made.0, made.1, made.2);
}

abbrev disk : Disk
disk = record { names = λ d x. none; is_directory = λ n. false; links = λ n. none; next = 64 }

abbrev b : Name
b = b'b' ∷ []

abbrev old_text : List ℕ
old_text = b'a' ∷ b'/' ∷ b'b' ∷ []

made_directory : (create engine true true 5 b true disk).1.is_directory 64 ≡ true
unfolding create
made_directory = refl

forbidden_name : (create engine true true 5 (b'?' ∷ []) false disk).0 ≡ failed einval
unfolding create
forbidden_name = refl

allowed_name : (create engine true false 5 (b'?' ∷ []) false disk).0 ≡ done 64
unfolding create
allowed_name = refl

taken_name :
    (create engine true true 5 b false (create engine true true 5 b true disk).1).0 ≡ failed 17
unfolding create
taken_name = refl

cut_link :
    (readlink engine 64 3 true (symlink engine true 5 b old_text disk).1).0
    ≡ done (some (b'a' ∷ b'/' ∷ []))
unfolding symlink readlink
cut_link = refl

tag_digits : hex_digits 8 0xa000001d ≡ b'a' ∷ b'0' ∷ b'0' ∷ b'0' ∷ b'0' ∷ b'0' ∷ b'1' ∷ b'd' ∷ []
unfolding hex_digits
tag_digits = refl

create-IsNew_example :
    Holds
      (λ n w.
        Only 5 b (view disk) (view w)
        × IsNew 5 b true true (engine.forbidden b) (view disk) n (view w))
      (λ w. Only 5 b (view disk) (view w))
      (create engine true true 5 b true disk)
create-IsNew_example = create-IsNew engine_creates 5 b true true true disk
