-- ===== src/Ext/Library.antt =====
-- What the bridge relies on of libext2fs, for names, inodes and the table of inodes in use: a
-- view of its state, and what each call does to it when no input or output fails.
pub mod View
use usbrw.Base.{ℕ, ◌≡◌, ◌⊎◌, Bool, true, false, Option, none, some}
use usbrw.Base.Int.{pos, negsuc}
use usbrw.Ext.{ErrCode, file_not_found, dir_no_space, Result, ok, err}
use usbrw.Ext.Engine.{Engine, Inode, Name}
use usbrw.Ext.Reply.{Reply, done}
use View.{Shelf, Tree, tree_of, put, set_name, shelve, mark}

-- A call that succeeds with `a` and leaves the view `after`.
pub record Yields {S A : Type 0} (shelf : S → Shelf) (run : Result A × S) (a : A) (after : Shelf)
    : Type 0 where
  pub state : S
  pub returns : run ≡ (ok a, state)
  pub leaves : shelf state ≡ after

-- An operation that returns `a` and leaves the names, link counts and inodes in use `after`.
pub record Does {S A : Type 0} (shelf : S → Shelf) (run : Reply A × S) (a : A) (after : Tree)
    : Type 0 where
  pub state : S
  pub returns : run ≡ (done a, state)
  pub leaves : tree_of (shelf state) ≡ after

-- A directory that has no room for a name: it is given a block, and then has. Its inode grows, and
-- keeps its links.
pub record Expands {S : Type 0} (e : Engine S) (shelf : S → Shelf) (dir : ℕ) (name : Name)
    (ino kind : ℕ) (s : S) : Type 0 where
  pub full : e.link dir name ino kind s ≡ (err dir_no_space, s)
  pub grown : Inode
  pub same_links : grown.i_links_count ≡ ((shelf s).inode dir).i_links_count
  pub expanded : Yields shelf (e.expand_dir dir s) tt (shelve dir grown (shelf s))
  pub linked :
      Yields shelf
        (e.link dir name ino kind expanded.state)
        tt
        (set_name dir name (some ino) (shelve dir grown (shelf s)))

pub record Library {S : Type 0} (e : Engine S) (shelf : S → Shelf) : Type 1 where
  pub read_inode : (n : ℕ) (s : S) → e.read_inode n s ≡ (ok ((shelf s).inode n), s)
  pub write_inode :
      (n : ℕ) (i : Inode) (s : S) → Yields shelf (e.write_inode n i s) tt (shelve n i (shelf s))
  pub lookup_found :
      (dir : ℕ) (name : Name) (n : ℕ) (s : S)
      → (shelf s).names dir name ≡ some n
      → e.lookup dir name s ≡ (ok n, s)
  pub lookup_missing :
      (dir : ℕ) (name : Name) (s : S)
      → (shelf s).names dir name ≡ none
      → e.lookup dir name s ≡ (err file_not_found, s)
  pub link :
      (dir : ℕ) (name : Name) (ino kind : ℕ) (s : S)
      → (shelf s).names dir name ≡ none
      → Yields shelf (e.link dir name ino kind s) tt (set_name dir name (some ino) (shelf s))
        ⊎ Expands e shelf dir name ino kind s
  pub unlink :
      (dir : ℕ) (name : Name) (n : ℕ) (s : S)
      → (shelf s).names dir name ≡ some n
      → Yields shelf (e.unlink dir name n s) tt (set_name dir name none (shelf s))
  pub release :
      (n : ℕ) (is_dir : Bool) (s : S)
      → shelf (e.alloc_stats n (negsuc 0) is_dir s) ≡ mark n false (shelf s)
  pub claim :
      (n : ℕ) (is_dir : Bool) (s : S)
      → shelf (e.alloc_stats n (pos 1) is_dir s) ≡ mark n true (shelf s)
  -- Blocks are given back; the inode keeps its links.
  pub punched : ℕ → Inode → ℕ → S → Inode
  pub punch :
      (n : ℕ) (i : Inode) (from : ℕ) (s : S)
      → Yields shelf (e.punch n i from s) (punched n i from s) (shelf s)
  pub punched_links :
      (n : ℕ) (i : Inode) (from : ℕ) (s : S) → (punched n i from s).i_links_count ≡ i.i_links_count
  -- If there is an inode left, a new inode is one that was not in use.
  pub HasInodes : S → Type 0
  pub free_inode : S → ℕ
  pub new_inode :
      (dir mode : ℕ) (s : S)
      → HasInodes s
      → Yields shelf (e.new_inode dir mode s) (free_inode s) (shelf s)
  pub free_lem : (s : S) → HasInodes s → (shelf s).in_use (free_inode s) ≡ false
  pub write_new_inode :
      (n : ℕ) (i : Inode) (s : S) → Yields shelf (e.write_new_inode n i s) tt (shelve n i (shelf s))
