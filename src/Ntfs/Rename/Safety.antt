-- ===== src/Ntfs/Rename/Safety.antt =====
-- What linking and unlinking do to the names of a volume, whichever calls of the library fail.
pub mod Plans
pub mod Moves
use usbrw.Base.{
  ℕ, ◌≡◌, refl, sym, ap, ◌∙◌, Bool, true, false, not, ◌&&◌, Option, some, none, arith, ◌==◌, ltb,
  if◌then◌else◌, length, Option-cases, inl, inr, ◌≢◌, ◌⊎◌, Bool-cases, ==→eq,
}
use usbrw.Bridge.{eperm, eopnotsupp, enametoolong}
use usbrw.Ext.Engine.{Name}
use usbrw.Ext.Library.View.{same_name}
use usbrw.Ext.Reply.{Reply, done, failed, hangs, Op, and_then, unless, cleaning, return, ◌>>=◌}
use usbrw.Ntfs.Call.{
  Info, Inodes, succeed_or, obtained, closing, convert, iget, lookup_mft, lookup_named, shut,
  with_inode, unicode, uni,
}
use usbrw.Ntfs.Call.Keeps.{
  Keeps, Sets, Returns, succeed_or_kept, obtained_kept, bind-Keeps, bind-Sets, then-Sets,
  cleaning-Keeps, closing-Keeps, closing-Sets, unless-Keeps, unless-Sets, bind-Returns,
  cleaning-Returns, closing-Returns, unless-Returns, succeed_or-Returns, obtained-Returns,
  return-Returns,
}
use usbrw.Ntfs.Data.{Opening, opened, cannot}
use usbrw.Ntfs.Rename.{
  Engine, located, delete_file, link_file, mark, link_into, deletable, do_unlink, do_link,
}

-- What the calls may do to the names of a volume, which stand for numbers of files: only linking
-- and deleting change any, and only the one that they are given; a link that succeeds is there,
-- and a lookup that succeeds is right. A deletion that fails may have taken the name away.
pub record Names {S : Type 0} (e : Engine S) (names : S → ℕ → Name → Option ℕ) : Type 0 where
  pub open_inode : (n : ℕ) (s : S) → names (e.inodes.open_inode n s).1 ≡ names s
  pub close_inode : (n : ℕ) (s : S) → names (e.inodes.close_inode n s).1 ≡ names s
  pub check_empty_dir : (n : ℕ) (s : S) → names (e.check_empty_dir n s).1 ≡ names s
  pub lookup : (dir : ℕ) (u : Name) (s : S) → names (e.inodes.lookup_by_name dir u s).1 ≡ names s
  pub lookup_found :
      (dir : ℕ) (u : Name) (s : S) (n : ℕ)
      → (e.inodes.lookup_by_name dir u s).0 ≡ opened n
      → names s dir u ≡ some n
  pub marks : (n dir : ℕ) (s : S) → names (e.set_archive_and_times n dir s) ≡ names s
  pub link_frame :
      (n dir : ℕ) (u : Name) (d : ℕ) (x : Name) (s : S)
      → (d == dir && same_name x u) ≡ false
      → names (e.link n dir u s).1 d x ≡ names s d x
  pub link_done :
      (n dir : ℕ) (u : Name) (s : S)
      → (e.link n dir u s).0 ≡ none
      → names (e.link n dir u s).1 dir u ≡ some n
  pub delete_frame :
      (n dir : ℕ) (u : Name) (d : ℕ) (x : Name) (s : S)
      → (d == dir && same_name x u) ≡ false
      → names (e.delete n dir u s).1 d x ≡ names s d x

module _ {S : Type 0} {e : Engine S} {names : S → ℕ → Name → Option ℕ} (law : Names e names) where
  abbrev i : Inodes S
  i = e.inodes

  module _ {V : Type 0} (part : (ℕ → Name → Option ℕ) → V) where
    abbrev pub v : S → V
    v s = part (names s)

    pub iget-Keeps : (n : ℕ) → Keeps v (iget i n)
    iget-Keeps n = record {
      keeps = λ s. obtained_kept v (i.open_inode n s) ∙ ap part (law.open_inode n s);
    }

    shut_kept : (n : ℕ) (s : S) → v (i.close_inode n s).1 ≡ v s
    shut_kept n s = ap part (law.close_inode n s)

    pub with_inode-Keeps :
        {A : Type 0} (n : ℕ) {body : Info → Op S A}
        → ((info : Info) → Keeps v (body info))
        → Keeps v (with_inode i n body)
    with_inode-Keeps n h =
        bind-Keeps (iget-Keeps n) λ info. closing-Keeps (i.close_inode n) (shut_kept n) (h info)

    lookup_named_kept :
        (dir : ℕ) (uname : Opening Name) (s : S) → v (lookup_named i dir uname s).1 ≡ v s
    lookup_named_kept dir (opened u) s = ap part (law.lookup dir u s)
    lookup_named_kept dir (cannot _) s = refl

    pub lookup_kept : (dir : ℕ) (name : Name) (s : S) → v (lookup_mft i dir name s).1 ≡ v s
    lookup_kept dir name s = lookup_named_kept dir (i.mbstoucs name) s

    located-Keeps : (dir : ℕ) (name : Name) → Keeps v (located e dir name)
    located-Keeps dir name = record {
      keeps = λ s. obtained_kept v (lookup_mft i dir name s) ∙ lookup_kept dir name s;
    }

    converted_kept :
        {A : Type 0} (uname : Opening Name) (k : Name → Op S A) (s : S)
        → v (k (unicode uname) s).1 ≡ v s
        → v (and_then (obtained (uname, s)) k).1 ≡ v s
    converted_kept (opened u) k s h = h
    converted_kept (cannot _) k s h = refl

    convert-Keeps :
        {A : Type 0} (name : Name) (k : Name → Op S A)
        → Keeps v (k (uni e.inodes name))
        → Keeps v (convert i name >>= k)
    convert-Keeps name k h = record {
      keeps = λ s. converted_kept (i.mbstoucs name) k s (h.keeps s);
    }

    return-Keeps : {A : Type 0} (a : A) → Keeps v (return a)
    return-Keeps a = record { keeps = λ s. refl }

    pub deletable-Keeps : (dir : ℕ) (name : Name) → Keeps v (deletable e dir name)
    unfolding deletable
    deletable-Keeps dir name = bind-Keeps (iget-Keeps dir) λ info.
        bind-Keeps
          (cleaning-Keeps
            (bind-Keeps (located-Keeps dir name) λ ino.
              unless-Keeps (ltb ino i.first_user) eperm
                (bind-Keeps (iget-Keeps ino) λ _. return-Keeps ino))
            (shut_kept dir))
          λ ino.
            cleaning-Keeps (unless-Keeps info.is_reparse eopnotsupp (return-Keeps ino))
              λ s. shut_kept dir (shut i ino s) ∙ shut_kept ino s

    module _ (dir : ℕ) (name : Name) where
      abbrev removes : Name → Op S (Unit {0})
      removes uname = deletable e dir name >>= λ ino. delete_file e ino dir uname

      pub do_unlink-Keeps :
          ((ino : ℕ) (s : S) → v (e.delete ino dir (uni e.inodes name) s).1 ≡ v s)
          → Keeps v (do_unlink e dir name)
      unfolding do_unlink
      do_unlink-Keeps deletes = convert-Keeps name removes (
          bind-Keeps (deletable-Keeps dir name) λ ino. record {
            keeps =
                λ s. succeed_or_kept v tt (e.delete ino dir (uni e.inodes name) s) ∙ deletes ino s;
          })

    module _ (n dir : ℕ) (name : Name) where
      abbrev pub inserts : Info → Name → Op S (Unit {0})
      inserts info uname = unless (ltb 255 (length uname)) enametoolong (
          with_inode i dir
            λ dir_info. unless dir_info.is_reparse eopnotsupp (link_into e n dir uname))

      marks-Keeps : Keeps v (mark e n dir)
      marks-Keeps = record { keeps = λ s. ap part (law.marks n dir s) }

      module _ (links : (s : S) → v (e.link n dir (uni e.inodes name) s).1 ≡ v s) where
        link_file-Keeps : Keeps v (link_file e n dir (uni e.inodes name))
        link_file-Keeps = record {
          keeps = λ s. succeed_or_kept v tt (e.link n dir (uni e.inodes name) s) ∙ links s;
        }

        pub do_link-Keeps : (allow_dir : Bool) → Keeps v (do_link e n dir name allow_dir)
        unfolding do_link
        do_link-Keeps allow_dir = with_inode-Keeps n λ info.
            unless-Keeps (not allow_dir && info.is_directory) eperm (
              convert-Keeps name (inserts info) (
                unless-Keeps (ltb 255 (length (uni e.inodes name))) enametoolong (
                  with_inode-Keeps dir λ dir_info.
                    unless-Keeps dir_info.is_reparse eopnotsupp
                      (bind-Keeps link_file-Keeps λ _. marks-Keeps))))

  -- That a deletion of the name of a file failed, and took the name away nevertheless.
  pub record Torn (dir : ℕ) (u : Name) (ino : ℕ) : Type 0 where
    pub number : ℕ
    pub before : S
    pub code : ℕ
    pub stood : names before dir u ≡ some ino
    pub failure : (e.delete number dir u before).0 ≡ some code
    pub gone : names (e.delete number dir u before).1 dir u ≢ some ino

  module _ (dir ino : ℕ) where
    -- The name still stands for the file, unless a deletion tore it off.
    abbrev pub Left : Name → S → Type 0
    Left u s = (names s dir u ≡ some ino) ⊎ Torn dir u ino

    stands : (o : Option ℕ) → (o ≡ some ino) ⊎ (o ≢ some ino)
    stands none = inr λ h. ground arith
    stands (some m) = elim (Bool-cases (m == ino)) [
      | inl same ↦ inl (ap some (==→eq m ino same))
      | inr other ↦ inr λ h. ground arith
    ]

    module _ (u : Name) where
      delete-Left :
          (n : ℕ) (s : S) (code : ℕ)
          → names s dir u ≡ some ino
          → (e.delete n dir u s).0 ≡ some code
          → Left u (e.delete n dir u s).1
      delete-Left n s code h failure = elim (stands (names (e.delete n dir u s).1 dir u)) [
        | inl kept ↦ inl kept
        | inr gone ↦ inr (record {
          number = n;
          before = s;
          code = code;
          stood = h;
          failure = failure;
          gone = gone;
        })
      ]

      deleted :
          (run : Reply ℕ × S) (errno : ℕ)
          → names run.1 dir u ≡ some ino
          → (and_then run (λ n. delete_file e n dir u)).0 ≡ failed errno
          → Left u (and_then run (λ n. delete_file e n dir u)).1
      deleted (done n, s) errno h = elim (Option-cases (e.delete n dir u s).0) [
        | inl success ↦ rw success λ failure. ground arith
        | inr (code, error) ↦ rw error λ failure. delete-Left n s code h error
      ]
      deleted (failed _, s) errno h = λ _. inl h
      deleted (hangs, s) errno h = λ _. inl h

    converted :
        (uname : Opening Name) (k : Name → Op S (Unit {0})) (s : S) (errno : ℕ)
        → names s dir (unicode uname) ≡ some ino
        → ((k (unicode uname) s).0 ≡ failed errno → Left (unicode uname) (k (unicode uname) s).1)
        → (and_then (obtained (uname, s)) k).0 ≡ failed errno
        → Left (unicode uname) (and_then (obtained (uname, s)) k).1
    converted (opened u) k s errno h rest failure = rest failure
    converted (cannot _) k s errno h rest failure = inl h

    -- After an unlinking that fails.
    pub do_unlink-Left :
        (name : Name) (s : S) (errno : ℕ)
        → names s dir (uni i name) ≡ some ino
        → (do_unlink e dir name s).0 ≡ failed errno
        → Left (uni i name) (do_unlink e dir name s).1
    unfolding do_unlink
    do_unlink-Left name s errno h = converted (i.mbstoucs name) _ s errno h (
        deleted (uni i name) (deletable e dir name s) errno
          ((deletable-Keeps (λ t. t dir (uni i name)) dir name).keeps s ∙ h))

  module _ (n dir : ℕ) (name : Name) where
    abbrev at : S → Option ℕ
    at s = names s dir (uni e.inodes name)

    abbrev part : (ℕ → Name → Option ℕ) → Option ℕ
    part t = t dir (uni e.inodes name)

    link_file-Sets : Sets at (some n) (link_file e n dir (uni e.inodes name))
    link_file-Sets = record {
      sets = λ s a. elim (Option-cases (e.link n dir (uni e.inodes name) s).0) [
        | inl success ↦ rw success λ _. law.link_done n dir (uni e.inodes name) s success
        | inr (code, error) ↦ rw error λ success. ground arith
      ];
    }

    inserts-Sets :
        (info : Info) → Sets at (some n) (inserts part n dir name info (uni e.inodes name))
    inserts-Sets info = unless-Sets (ltb 255 (length (uni e.inodes name))) enametoolong (
        bind-Sets (iget i dir) λ dir_info. closing-Sets (i.close_inode dir) (shut_kept part dir) (
          unless-Sets dir_info.is_reparse eopnotsupp
            (then-Sets link_file-Sets λ _. marks-Keeps part n dir name)))

    converted-Sets :
        (uname : Opening Name) (k : Name → Op S (Unit {0})) (s : S) (a : Unit {0})
        → ((k (unicode uname) s).0 ≡ done a → at (k (unicode uname) s).1 ≡ some n)
        → (and_then (obtained (uname, s)) k).0 ≡ done a
        → at (and_then (obtained (uname, s)) k).1 ≡ some n
    converted-Sets (opened u) k s a h success = h success
    converted-Sets (cannot _) k s a h success = ground arith

    -- A link that succeeds is there.
    pub do_link-Sets : (allow_dir : Bool) → Sets at (some n) (do_link e n dir name allow_dir)
    unfolding do_link
    do_link-Sets allow_dir = bind-Sets (iget i n) λ info.
        closing-Sets (i.close_inode n) (shut_kept part n) (
          unless-Sets (not allow_dir && info.is_directory) eperm (record {
            sets = λ s a. converted-Sets (i.mbstoucs name) _ s a ((inserts-Sets info).sets s a);
          }))
