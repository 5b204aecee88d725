-- ===== src/Ext/Rename/Moves.antt =====
-- Renaming a file, over a library that does what it should: names, link counts, inodes in use.
use usbrw.Base.{
  ℕ, ◌^◌, ◌<◌, ◌≡◌, ◌≢◌, inl, inr, refl, sym, ap, ap₂, if◌then◌else◌, ◌∙◌, true, false, none, some,
  Option-cases,
}
use native.Mathlib.Nat.{mod-eq_of_lt}
use usbrw.Ext.Engine.{Engine, Inode, Name}
use usbrw.Ext.Files.{u32, lookup}
use usbrw.Ext.Files.Lookups.{lookup-found, lookup-missing}
use usbrw.Ext.Library.{Library, Does}
use usbrw.Ext.Library.View.{
  Shelf, Tree, tree_of, put_name, with_name, drop_target, drop_target-others, remove_name-last,
  names_differ, clear_name, move_name, put_name-same, put_name-keeps, put_name-again,
  remove_name-names,
}
use usbrw.Ext.Rename.{remove_target, rename_file, rename}
use usbrw.Ext.Reply.{Reply, done}
use usbrw.Ext.Tree.{is_dir}
use usbrw.Ext.Tree.Creates.{link_file-Links, tree_of-Links}
use usbrw.Ext.Tree.Unlinks.{unlink_file, after_unlink-keeps}

-- A file that can lose a link, with its number.
pub record IsLinkedFile (n : ℕ) (i : Inode) : Type 0 where
  pub small : n < 2 ^ 32
  pub file : is_dir i ≡ false
  pub linked : 0 < i.i_links_count

module _ {S : Type 0} {e : Engine S} {shelf : S → Shelf} (library : Library e shelf) (old_dir : ℕ)
    (old_name : Name) (new_dir : ℕ) (new_name : Name) (n : ℕ) (s : S)
    (named : (shelf s).names (u32 old_dir) old_name ≡ some n) (number : n < 2 ^ 32)
    (targets : (t : ℕ)
      → (shelf s).names (u32 new_dir) new_name ≡ some t
      → IsLinkedFile t ((shelf s).inode t)) where
  -- The new name is free, and the old one is still there once the new one is linked.
  record Clears (run : Reply (Unit {0}) × S) : Type 0 where
    state : S
    returns : run ≡ (done tt, state)
    leaves : tree_of (shelf state) ≡ clear_name (u32 new_dir) new_name (tree_of (shelf s))
    free : (shelf state).names (u32 new_dir) new_name ≡ none
    kept :
        put_name (u32 new_dir) new_name (some n) (shelf state).names (u32 old_dir) old_name ≡ some n

  remove_target-Clears :
      Clears (remove_target e true new_dir new_name (lookup e true new_dir new_name false s))
  unfolding remove_target
  remove_target-Clears = elim (Option-cases ((shelf s).names (u32 new_dir) new_name)) [
    | inl missing ↦ record {
      state = s;
      returns = rw (lookup-missing library new_dir new_name s missing) refl;
      leaves = ap (λ o. drop_target o (u32 new_dir) new_name (tree_of (shelf s))) (sym missing);
      free = missing;
      kept = put_name-keeps (u32 new_dir) new_name (u32 old_dir) old_name n (shelf s).names named;
    }
    | inr (t, there) ↦
        let target = targets t there in
        let small : u32 t ≡ t = mod-eq_of_lt target.small in
        let cut =
          unlink_file library new_dir new_name t t s there (inr small) target.file target.linked in
        let names =
          ap (λ (v : Tree). v.names) cut.leaves
          ∙ remove_name-names (u32 new_dir) new_name t (tree_of (shelf s)) in
        record {
          state = cut.state;
          returns = rw (lookup-found library new_dir new_name t s there, cut.returns) refl;
          leaves =
              cut.leaves
              ∙ ap (λ o. drop_target o (u32 new_dir) new_name (tree_of (shelf s))) (sym there);
          free =
              ap (λ f. f (u32 new_dir) new_name) names
              ∙ put_name-same (u32 new_dir) new_name none (shelf s).names;
          kept =
              ap (λ f. put_name (u32 new_dir) new_name (some n) f (u32 old_dir) old_name) names
              ∙ put_name-again (u32 new_dir) new_name (u32 old_dir) old_name n (shelf s).names
                  named;
        }
  ]

  rename_file-Does :
      Does shelf
        (rename_file e true old_dir old_name new_dir new_name n s)
        tt
        (move_name (u32 old_dir) old_name (u32 new_dir) new_name n (tree_of (shelf s)))
  unfolding rename_file
  rename_file-Does =
      let clear = remove_target-Clears in
      let linked = link_file-Links library (u32 new_dir) new_name n clear.state clear.free in
      let present = ap (λ (v : Shelf). v.names (u32 old_dir) old_name) linked.leaves ∙ clear.kept in
      let cut = library.unlink (u32 old_dir) old_name n linked.state present in
      let last = after_unlink-keeps library n 0 cut.state in
      record {
        state = last.state;
        returns = rw (clear.returns, linked.returns, cut.returns, last.returns) refl;
        leaves =
            last.leaves
            ∙ ap tree_of cut.leaves
            ∙ ap (with_name (u32 old_dir) old_name none)
                (tree_of-Links (u32 new_dir) new_name n (shelf clear.state) _ linked)
            ∙ ap
                (λ t.
                  with_name (u32 old_dir) old_name none
                    (with_name (u32 new_dir) new_name (some n) t))
                clear.leaves;
      }

  -- `extfsk_rename` of a file: what the new name stood for is removed first (a file with a link
  -- less, and out of use with the last), then the new name stands for the file, and then the old
  -- name is gone. The file keeps its number of links, unless it is what the new name stood for; no
  -- other name, link count or mark of an inode in use changes. A directory without room is extended.
  pub rename_lem :
      is_dir ((shelf s).inode n) ≡ false
      → Does shelf
          (rename e true old_dir old_name new_dir new_name s)
          tt
          (move_name (u32 old_dir) old_name (u32 new_dir) new_name n (tree_of (shelf s)))
  unfolding rename
  rename_lem file =
      let small : u32 n ≡ n = mod-eq_of_lt number in
      let moved = rename_file-Does in
      record {
        state = moved.state;
        returns =
            rw
              (
                lookup-found library old_dir old_name n s named,
                small,
                library.read_inode n s,
                file,
                moved.returns,
              )
              refl;
        leaves = moved.leaves;
      }

  -- After a successful rename of a file to a name that was free or stood for another file, the new
  -- name stands for the file, the old one for nothing if it is another name, and the file has the
  -- links it had and is in use if it was.
  pub rename_keeps :
      is_dir ((shelf s).inode n) ≡ false
      → (shelf s).names (u32 new_dir) new_name ≢ some n
      → let (result, w) = rename e true old_dir old_name new_dir new_name s in
        (result ≡ done tt)
        × ((shelf w).names (u32 new_dir) new_name ≡ some n)
        × ((shelf w).names (u32 old_dir) old_name ≡ none)
        × (((shelf w).inode n).i_links_count ≡ ((shelf s).inode n).i_links_count)
        × ((shelf w).in_use n ≡ (shelf s).in_use n)
  rename_keeps file other =
      let moved = rename_lem file in
      let before = tree_of (shelf s) in
      let old = put_name (u32 old_dir) old_name none in
      let new = put_name (u32 new_dir) new_name (some n) in
      let cleared = clear_name (u32 new_dir) new_name before in
      let others =
        drop_target-others ((shelf s).names (u32 new_dir) new_name) (u32 new_dir) new_name n before
          other in
      let differ =
        names_differ (shelf s).names (u32 new_dir) (u32 old_dir) new_name old_name
          (λ same. other (same ∙ named)) in
      rw moved.returns (
        refl,
        ap (λ (t : Tree). t.names (u32 new_dir) new_name) moved.leaves
            ∙ ap (λ b. if b then none else new cleared.names (u32 new_dir) new_name) differ
            ∙ put_name-same (u32 new_dir) new_name (some n) cleared.names,
        ap (λ (t : Tree). t.names (u32 old_dir) old_name) moved.leaves
            ∙ put_name-same (u32 old_dir) old_name none (new cleared.names),
        ap (λ (t : Tree). t.links n) moved.leaves ∙ others.0,
        ap (λ (t : Tree). t.in_use n) moved.leaves ∙ others.1,
      )

  -- A rename of a file onto its own name is no empty operation: it removes the link of that name
  -- first. If it is the file's only one, the file is released: the call succeeds, the name stands for
  -- nothing and the inode is free.
  pub rename_self :
      is_dir ((shelf s).inode n) ≡ false
      → old_dir ≡ new_dir
      → old_name ≡ new_name
      → ((shelf s).inode n).i_links_count ≡ 1
      → let (result, w) = rename e true old_dir old_name new_dir new_name s in
        (result ≡ done tt)
        × ((shelf w).names (u32 old_dir) old_name ≡ none)
        × ((shelf w).in_use n ≡ false)
  rename_self file same_dir same_name single =
      let moved = rename_lem file in
      let before = tree_of (shelf s) in
      let target : (shelf s).names (u32 new_dir) new_name ≡ some n =
        ap₂ (λ d x. (shelf s).names (u32 d) x) (sym same_dir) (sym same_name) ∙ named in
      let cleared = clear_name (u32 new_dir) new_name before in
      rw moved.returns (
        refl,
        ap (λ (t : Tree). t.names (u32 old_dir) old_name) moved.leaves
            ∙ put_name-same (u32 old_dir) old_name none
                (put_name (u32 new_dir) new_name (some n) cleared.names),
        ap (λ (t : Tree). t.in_use n) moved.leaves
            ∙ ap (λ o. (drop_target o (u32 new_dir) new_name before).in_use n) target
            ∙ remove_name-last (u32 new_dir) new_name n before single,
      )
