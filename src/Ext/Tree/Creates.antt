-- ===== src/Ext/Tree/Creates.antt =====
-- Linking and creating, over a library that does what it should.
use usbrw.Base.{ℕ, sym, ◌≡◌, inl, inr, refl, ap, ◌∙◌, true, false, none, some}
use usbrw.Bridge.Mode
use usbrw.Ext.Engine.{Engine, Inode, Name}
use usbrw.Ext.Library.{Library}
use usbrw.Ext.Library.View.{
  Shelf, set_name, shelve, mark, shelve_same, tree_of, tree_of-shelve, with_name, with_links_same,
}
use usbrw.Ext.Reply.{Reply, done, translated}
use usbrw.Ext.Tree.{ft_reg_file, link_again, link_file, fresh_inode}

-- A run that returns the number of an inode that was not in use, and leaves it behind a name, in
-- use, with one link, no size and the given attributes; the rest of the view is `before`.
pub record Creates {S : Type 0} (e : Engine S) (shelf : S → Shelf) (dir : ℕ) (name : Name)
    (mode uid gid : ℕ) (before : Shelf) (run : Reply ℕ × S) : Type 0 where
  pub number : ℕ
  pub now : ℕ
  pub state : S
  pub unused : before.in_use number ≡ false
  pub returns : run ≡ (done number, state)
  -- the inode of the directory, which may have grown
  pub directory : Inode
  pub same_links : directory.i_links_count ≡ (before.inode dir).i_links_count
  pub leaves :
      shelf state
      ≡ mark number true (
          shelve number
            (fresh_inode mode uid gid now)
            (set_name dir name (some number) (shelve dir directory before)))

-- A run that gives a file a name; the inode of the directory may grow.
pub record Links {S : Type 0} (shelf : S → Shelf) (dir : ℕ) (name : Name) (n : ℕ) (before : Shelf)
    (run : Reply (Unit {0}) × S) : Type 0 where
  pub state : S
  pub directory : Inode
  pub same_links : directory.i_links_count ≡ (before.inode dir).i_links_count
  pub returns : run ≡ (done tt, state)
  pub leaves : shelf state ≡ set_name dir name (some n) (shelve dir directory before)

-- The view without the other fields of inodes.
pub tree_of-Links :
    {S : Type 0} {shelf : S → Shelf} (dir : ℕ) (name : Name) (n : ℕ) (before : Shelf)
    (run : Reply (Unit {0}) × S) (linked : Links shelf dir name n before run)
    → tree_of (shelf linked.state) ≡ with_name dir name (some n) (tree_of before)
tree_of-Links dir name n before run linked =
    ap tree_of linked.leaves
    ∙ ap (with_name dir name (some n)) (
        tree_of-shelve dir linked.directory before
        ∙ with_links_same dir _ (tree_of before) linked.same_links)

module _ {S : Type 0} {e : Engine S} {shelf : S → Shelf} (library : Library e shelf) where
  -- A name that is free is linked, the directory being extended if it has no room.
  pub link_file-Links :
      (dir : ℕ) (name : Name) (n : ℕ) (s : S)
      → (shelf s).names dir name ≡ none
      → Links shelf dir name n (shelf s) (translated (link_file e dir name n) s)
  unfolding link_file link_again
  link_file-Links dir name n s free = elim (library.link dir name n ft_reg_file s free) [
    | inl linked ↦ record {
      state = linked.state;
      returns = rw linked.returns refl;
      directory = (shelf s).inode dir;
      same_links = refl;
      leaves = linked.leaves ∙ ap (set_name dir name (some n)) (sym (shelve_same dir (shelf s)));
    }
    | inr grown ↦ record {
      state = grown.linked.state;
      returns = rw (grown.full, grown.expanded.returns, grown.linked.returns) refl;
      directory = grown.grown;
      same_links = grown.same_links;
      leaves = grown.linked.leaves;
    }
  ]
