-- ===== src/Ext/Tests/Toy.antt =====
-- A library on the view itself: every call does what is documented, and nothing else.
use usbrw.Base.{
  List, ◌∷◌, ℕ, ◌≡◌, ◌⊎◌, ◌==◌, refl, ap, Bool, true, false, Bool-cases, Option, none, some, [],
  inl, inr, length, arith,
}
use usbrw.Base.Int.{pos, negsuc}
use usbrw.Ext.{ok, err, Result, file_not_found, dir_no_space}
use usbrw.Ext.Dir.Delivery.{walk}
use usbrw.Ext.Engine.{DirEntry, Name, Engine, Inode}
use usbrw.Ext.Library.{Library, Yields, Expands}
use usbrw.Ext.Library.View.{Shelf, set_name, shelve, mark}

abbrev found : Option ℕ → Result ℕ
found none = err file_not_found
found (some n) = ok n

abbrev pub blank : Inode
blank = record {
  i_mode = 0;
  i_links_count = 0;
  i_uid = 0;
  i_gid = 0;
  i_size = 0;
  i_blocks = 0;
  i_atime = 0;
  i_mtime = 0;
  i_ctime = 0;
  i_dtime = 0;
  i_block = [];
}

abbrev entry : ℕ → ℕ → Name → ℕ → DirEntry
entry offset rec_len name inode = record {
  offset = offset;
  rec_len = rec_len;
  name_len = length name;
  name = name;
  inode = inode;
}

-- Every directory is listed like this: ".", "..", "a", "b".
abbrev pub listing : List DirEntry
listing =
    entry 0 12 (b'.' ∷ []) 2
    ∷ entry 12 12 (b'.' ∷ b'.' ∷ []) 2
    ∷ entry 24 12 (b'a' ∷ []) 12
    ∷ entry 36 988 (b'b' ∷ []) 13
    ∷ []

-- The inode of a directory that was given its first block.
abbrev first_block : Inode → Inode
first_block i = record i { i_size = 1024; i_blocks = 2 }

-- A directory without a block has no room for a name.
abbrev placed : (full : Bool) → ℕ → Name → ℕ → Shelf → Result (Unit {0}) × Shelf
placed true dir name n s = (err dir_no_space, s)
placed false dir name n s = (ok tt, set_name dir name (some n) s)

abbrev grown_dir : ℕ → Shelf → Shelf
grown_dir dir s = shelve dir (first_block (s.inode dir)) s

-- New inodes get the number 99, which no test uses otherwise.
abbrev pub toy : Engine Shelf
toy = record {
  super = λ s. record {
    blocks_count = 100;
    free_blocks_count = 50;
    block_size = 1024;
    s_inodes_count = 32;
    s_free_inodes_count = 16;
    s_volume_name = [];
  };
  time = λ s. 7;
  flush = λ s. s;
  read_inode = λ n s. (ok (s.inode n), s);
  write_inode = λ n i s. (ok tt, shelve n i s);
  write_new_inode = λ n i s. (ok tt, shelve n i s);
  new_inode = λ dir mode s. (ok 99, s);
  alloc_stats = λ n change is_dir s. mark n (elim change [ pos _ ↦ true | negsuc _ ↦ false ]) s;
  lookup = λ dir name s. (found (s.names dir name), s);
  link = λ dir name n kind s. placed ((s.inode dir).i_size == 0) dir name n s;
  unlink = λ dir name n s. (ok tt, set_name dir name none s);
  expand_dir = λ dir s. (ok tt, grown_dir dir s);
  mkdir = λ dir name s. (ok tt, set_name dir name (some 99) s);
  symlink = λ dir name target s. (ok tt, set_name dir name (some 99) s);
  has_valid_blocks = λ i. true;
  is_fast_symlink = λ i. true;
  punch = λ n i from s. (ok (record i { i_blocks = 0 }), s);
  size_set = λ i size. ok (record i { i_size = size });
  off_cast = λ off. off;
  file_open = λ n writable s. (ok n, s);
  file_lseek = λ f off s. (ok tt, s);
  file_read = λ f len s. ((ok tt, []), s);
  file_write = λ f bytes s. ((ok tt, length bytes), s);
  file_flush = λ f s. (ok tt, s);
  file_close = λ f s. s;
  dir_iterate2 = λ P dir f p s. walk listing f p s;
}

has_room : (dir : ℕ) (s : Shelf) → (((grown_dir dir s).inode dir).i_size == 0) ≡ false
has_room dir s = ground arith

toy_link :
    (dir : ℕ) (name : Name) (n kind : ℕ) (s : Shelf)
    → Yields (λ s. s) (toy.link dir name n kind s) tt (set_name dir name (some n) s)
      ⊎ Expands toy (λ s. s) dir name n kind s
toy_link dir name n kind s = elim (Bool-cases ((s.inode dir).i_size == 0)) [
  | inl full ↦ inr (record {
    full = rw full refl;
    grown = first_block (s.inode dir);
    same_links = refl;
    expanded = record { state = grown_dir dir s; returns = refl; leaves = refl };
    linked = record {
      state = set_name dir name (some n) (grown_dir dir s);
      returns = ap (λ b. placed b dir name n (grown_dir dir s)) (has_room dir s);
      leaves = refl;
    };
  })
  | inr free ↦ inl (record {
    state = set_name dir name (some n) s;
    returns = ap (λ b. placed b dir name n s) free;
    leaves = refl;
  })
]

pub toy-Library : Library toy (λ s. s)
toy-Library = record {
  read_inode = λ n s. refl;
  write_inode = λ n i s. record { state = shelve n i s; returns = refl; leaves = refl };
  lookup_found = λ dir name n s named. rw named refl;
  lookup_missing = λ dir name s free. rw free refl;
  link = λ dir name n kind s free. toy_link dir name n kind s;
  unlink = λ dir name n s named. record {
    state = set_name dir name none s;
    returns = refl;
    leaves = refl;
  };
  release = λ n is_dir s. refl;
  claim = λ n is_dir s. refl;
  punched = λ n i from s. record i { i_blocks = 0 };
  punch = λ n i from s. record { state = s; returns = refl; leaves = refl };
  punched_links = λ n i from s. refl;
  HasInodes = λ s. s.in_use 99 ≡ false;
  free_inode = λ s. 99;
  new_inode = λ dir mode s room. record { state = s; returns = refl; leaves = refl };
  free_lem = λ s room. room;
  write_new_inode = λ n i s. record { state = shelve n i s; returns = refl; leaves = refl };
}

pub toy_room : (s : Shelf) → s.in_use 99 ≡ false → toy-Library.HasInodes s
unfolding toy-Library
toy_room s room = room
