-- ===== src/Ext/Tree/Unlinks.antt =====
-- Unlinking, over a library that does what it should: names, link counts and inodes in use.
use usbrw.Base.{
  ℕ, ◌-◌, ◌≡◌, ◌⊎◌, inl, inr, refl, sym, ap, ◌∙◌, Bool, true, false, some, arith, ◌==◌, Bool-cases,
  ==→eq, ◌<◌, ltb,
}
use usbrw.Base.Int.{negsuc}
use usbrw.Ext.{ok}
use usbrw.Ext.Engine.{Engine, Inode, Name}
use usbrw.Ext.Files.{u32}
use usbrw.Ext.Library.{Library, Does}
use usbrw.Ext.Library.View.{
  Shelf, Tree, tree_of, with_links, with_use, drop_link, remove_name, lose_child, remove_dir,
  tree_of-shelve, with_links_same,
}
use usbrw.Ext.Reply.{done}
use usbrw.Ext.Tree.{
  is_dir, dec_links, release_blocks, kill_file, kill_dir, drop_parent, after_unlink, hinted, unlink,
}

module _ {S : Type 0} {e : Engine S} {shelf : S → Shelf} (library : Library e shelf) where
  abbrev tree : S → Tree
  tree s = tree_of (shelf s)

  write_inode-tree :
      (n : ℕ) (i : Inode) (s : S)
      → (w : S) × (e.write_inode n i s ≡ (ok tt, w))
        × (tree w ≡ with_links n i.i_links_count (tree s))
  write_inode-tree n i s =
      let put = library.write_inode n i s in
      (put.state, put.returns, ap tree_of put.leaves ∙ tree_of-shelve n i (shelf s))

  -- The blocks that are given back change nothing that is looked at here.
  release_blocks-Does :
      (n : ℕ) (i : Inode) (s : S)
      → (i' : Inode) × (w : S) × (release_blocks e n i s ≡ (done i', w))
        × (i'.i_links_count ≡ i.i_links_count)
        × (tree w ≡ tree s)
  unfolding release_blocks
  release_blocks-Does n i s = elim (Bool-cases (e.has_valid_blocks i)) [
    | inl valid ↦
        let punched = library.punch n i 0 s in
        (
          library.punched n i 0 s,
          punched.state,
          rw (valid, punched.returns) refl,
          library.punched_links n i 0 s,
          ap tree_of punched.leaves,
        )
    | inr nothing ↦ (i, s, rw nothing refl, refl, refl)
  ]

  -- What both kinds of kill end with: the inode is released and written back with its links.
  discard :
      (n k : ℕ) (i : Inode) (as_dir : Bool) (s : S)
      → i.i_links_count ≡ k
      → (w : S) × (e.write_inode n i (e.alloc_stats n (negsuc 0) as_dir s) ≡ (ok tt, w))
        × (tree w ≡ with_links n k (with_use n false (tree s)))
  discard n k i as_dir s h =
      let (w, returns, leaves) = write_inode-tree n i (e.alloc_stats n (negsuc 0) as_dir s) in
      (
        w,
        returns,
        leaves
            ∙ ap (λ j. with_links n j (tree (e.alloc_stats n (negsuc 0) as_dir s))) h
            ∙ ap (λ v. with_links n k (tree_of v)) (library.release n as_dir s),
      )

  kill_file-Does :
      (n : ℕ) (i : Inode) (s : S)
      → i.i_links_count ≡ (tree s).links n
      → 0 < i.i_links_count
      → Does shelf (kill_file e n i s) tt (drop_link n (tree s))
  unfolding kill_file dec_links release_blocks
  kill_file-Does n i s same linked =
      let some_links : (i.i_links_count == 0) ≡ false = ground arith in
      elim (Bool-cases (i.i_links_count - 1 == 0)) [
        | inl last ↦
            let gone = record i { i_links_count = i.i_links_count - 1; i_dtime = e.time s } in
            let (i', w, released, links, kept) = release_blocks-Does n gone s in
            let (w', written, leaves) =
              discard n 0 i' false w (links ∙ ==→eq (i.i_links_count - 1) 0 last) in
            record {
              state = w';
              returns = rw (some_links, last, released, written) refl;
              leaves =
                  rw (sym same, last) (leaves ∙ ap (λ t. with_links n 0 (with_use n false t)) kept);
            }
        | inr more ↦
            let less = record i { i_links_count = i.i_links_count - 1; i_ctime = e.time s } in
            let (w, written, leaves) = write_inode-tree n less s in
            record {
              state = w;
              returns = rw (some_links, more, written) refl;
              leaves = rw (sym same, more) leaves;
            }
      ]

  drop_parent-tree :
      (parent : ℕ) (s : S) → tree (drop_parent e parent s) ≡ lose_child parent (tree s)
  unfolding drop_parent dec_links
  drop_parent-tree parent s = rw (library.read_inode parent s) (elim (Bool-cases (parent == 0)) [
    | inl nobody ↦ rw nobody refl
    | inr known ↦ elim (Bool-cases (ltb 1 ((tree s).links parent))) [
      | inl more ↦
          let p = (shelf s).inode parent in
          let less = record p { i_links_count = p.i_links_count - 1; i_mtime = e.time s } in
          let (w, written, leaves) = write_inode-tree parent less s in
          rw (known, more, written) leaves
      | inr few ↦ rw (known, few) refl
    ]
  ])

  kill_dir-Does :
      (n : ℕ) (i : Inode) (parent : ℕ) (s : S)
      → Does shelf
          (kill_dir e n i parent s)
          tt
          (with_links n 0 (with_use n false (lose_child parent (tree s))))
  unfolding kill_dir
  kill_dir-Does n i parent s =
      let gone = record i { i_links_count = 0; i_dtime = e.time s } in
      let (i', w, released, links, kept) = release_blocks-Does n gone (drop_parent e parent s) in
      let (w', written, leaves) = discard n 0 i' true w links in
      record {
        state = w';
        returns = rw (released, written) refl;
        leaves =
            leaves
            ∙ ap (λ t. with_links n 0 (with_use n false t)) (kept ∙ drop_parent-tree parent s);
      }

  -- `ext_after_unlink` of a name that a rename leaves: the link count stays.
  pub after_unlink-keeps :
      (n parent : ℕ) (s : S) → Does shelf (after_unlink e n false parent s) tt (tree s)
  unfolding after_unlink
  after_unlink-keeps n parent s =
      let i = (shelf s).inode n in
      let (w, written, leaves) = write_inode-tree n (record i { i_ctime = e.time s }) s in
      record {
        state = w;
        returns = rw (library.read_inode n s, written) refl;
        leaves = leaves ∙ with_links_same n i.i_links_count (tree s) refl;
      }

  module _ (dir : ℕ) (name : Name) (n hint : ℕ) (s : S)
      (named : (shelf s).names (u32 dir) name ≡ some n)
      (known : (u32 hint ≡ 0) ⊎ (u32 hint ≡ n)) where
    hinted-eq : hinted e (u32 dir) name (u32 hint) s ≡ (done n, s)
    unfolding hinted
    hinted-eq = elim known [
      | inl unknown ↦ rw (unknown, library.lookup_found (u32 dir) name n s named) refl
      | inr same ↦ elim (Bool-cases (n == 0)) [
        | inl zero_number ↦
            rw (same, zero_number, library.lookup_found (u32 dir) name n s named) refl
        | inr number ↦ rw (same, number) refl
      ]
    ]

    -- `extfsk_unlink` of a file: the name is gone, the file has one link less, and with its last
    -- link it is no longer in use; no other name, link count or mark of an inode in use changes.
    pub unlink_file :
        is_dir ((shelf s).inode n) ≡ false
        → 0 < ((shelf s).inode n).i_links_count
        → Does shelf
            (unlink e true dir name hint s)
            tt
            (remove_name (u32 dir) name n (tree_of (shelf s)))
    unfolding unlink after_unlink
    unlink_file file linked =
        let cut = library.unlink (u32 dir) name n s named in
        let w = cut.state in
        let same : (shelf w).inode n ≡ (shelf s).inode n = ap (λ v. v.inode n) cut.leaves in
        let kill =
          kill_file-Does n ((shelf s).inode n) w (sym (ap (λ i. i.i_links_count) same)) linked in
        record {
          state = kill.state;
          returns =
              rw (hinted-eq, cut.returns, library.read_inode n w, same, file, kill.returns) refl;
          leaves = kill.leaves ∙ ap (λ v. drop_link n (tree_of v)) cut.leaves;
        }

    -- `extfsk_unlink` of a directory: the name is gone, the directory has no links and is no
    -- longer in use, and the directory that held it has a link less, if it had more than one.
    -- Names inside of the directory are not looked at: it need not be empty.
    pub unlink_dir :
        is_dir ((shelf s).inode n) ≡ true
        → Does shelf
            (unlink e true dir name hint s)
            tt
            (remove_dir (u32 dir) name n (tree_of (shelf s)))
    unfolding unlink after_unlink
    unlink_dir directory =
        let cut = library.unlink (u32 dir) name n s named in
        let w = cut.state in
        let same : (shelf w).inode n ≡ (shelf s).inode n = ap (λ v. v.inode n) cut.leaves in
        let kill = kill_dir-Does n ((shelf s).inode n) (u32 dir) w in
        record {
          state = kill.state;
          returns =
              rw (hinted-eq, cut.returns, library.read_inode n w, same, directory, kill.returns)
                refl;
          leaves =
              kill.leaves
              ∙ ap (λ v. with_links n 0 (with_use n false (lose_child (u32 dir) (tree_of v))))
                  cut.leaves;
        }
