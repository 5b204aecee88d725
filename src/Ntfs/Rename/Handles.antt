-- ===== src/Ntfs/Rename/Handles.antt =====
-- The inodes that linking and unlinking hold open, whichever calls of the library fail.
pub mod Renames
use usbrw.Base.{
  ℕ, ◌+◌, ◌≡◌, refl, ◌∙◌, Bool, true, false, not, ◌&&◌, ◌||◌, Option, some, none, ◌==◌, ltb, leb,
  if◌then◌else◌, length, Bool-cases, inl, inr, arith,
}
use usbrw.Bridge.{eperm, enoent, eopnotsupp, enametoolong}
use usbrw.Ext.Engine.{Name}
use usbrw.Ext.Reply.{
  Reply, done, failed, hangs, Op, and_then, unless, after_failure, cleaning, return, ◌>>=◌,
}
use usbrw.Ntfs.Call.{
  Info, Inodes, succeed_or, obtained, after_close, afterwards, convert, iget, lookup_mft,
  lookup_named, shut, with_inode, needing, find,
}
use usbrw.Ntfs.Call.Holds.{
  Holds, bind-Holds, unless-Holds, obtained-Holds, succeed_or-Holds, afterwards-Holds,
  after_failure-Holds,
}
use usbrw.Ntfs.Data.{Opening, opened, cannot}
use usbrw.Ntfs.Rename.{
  Engine, Plan, to_free_name, to_itself, over, located, delete_file, link_file, mark, link_into,
  deletable, do_unlink, do_link, move, replace, plan, execute, rename, source, against, tmp_name,
}

-- An inode is open once more.
abbrev pub plus : ℕ → (ℕ → ℕ) → ℕ → ℕ
plus n h m = if m == n then h m + 1 else h m

-- How often each inode is open. Opening one may fail; closing one takes that one away in any case, and
-- deleting a file closes its inode and that of the directory in any case.
pub record Handles {S : Type 0} (e : Engine S) (held : S → ℕ → ℕ) : Type 0 where
  pub opens :
      (n : ℕ) (s : S) (info : Info)
      → (e.inodes.open_inode n s).0 ≡ opened info
      → held (e.inodes.open_inode n s).1 ≡ plus n (held s)
  pub not_opened :
      (n : ℕ) (s : S) (errno : ℕ)
      → (e.inodes.open_inode n s).0 ≡ cannot errno
      → held (e.inodes.open_inode n s).1 ≡ held s
  pub closes :
      (n : ℕ) (s : S) (h : ℕ → ℕ) → held s ≡ plus n h → held (e.inodes.close_inode n s).1 ≡ h
  pub deletes :
      (n dir : ℕ) (u : Name) (s : S) (h : ℕ → ℕ)
      → held s ≡ plus n (plus dir h)
      → held (e.delete n dir u s).1 ≡ h
  pub lookup : (dir : ℕ) (u : Name) (s : S) → held (e.inodes.lookup_by_name dir u s).1 ≡ held s
  pub link : (n dir : ℕ) (u : Name) (s : S) → held (e.link n dir u s).1 ≡ held s
  pub marks : (n dir : ℕ) (s : S) → held (e.set_archive_and_times n dir s) ≡ held s
  pub check_empty_dir : (n : ℕ) (s : S) → held (e.check_empty_dir n s).1 ≡ held s

module _ {S : Type 0} {e : Engine S} {held : S → ℕ → ℕ} (law : Handles e held) where
  abbrev i : Inodes S
  i = e.inodes

  abbrev pub Held : (ℕ → ℕ) → S → Type 0
  Held h s = held s ≡ h

  -- An operation that gives back what it opens.
  abbrev pub Balanced : {A : Type 0} → Op S A → Type 0
  Balanced op = (h : ℕ → ℕ) (s : S) → Held h s → Holds (λ _ s. Held h s) (Held h) (op s)

  -- One that succeeds with more inodes open, as its result says.
  abbrev Opens : {A : Type 0} → (A → (ℕ → ℕ) → ℕ → ℕ) → Op S A → Type 0
  Opens more op = (h : ℕ → ℕ) (s : S) → Held h s → Holds (λ a s. Held (more a h) s) (Held h) (op s)

  pub held_after :
      {A : Type 0} (h : ℕ → ℕ) (run : Reply A × S)
      → Holds (λ _ s. Held h s) (Held h) run
      → Held h run.1
  held_after h (done a, s) r = r
  held_after h (failed _, s) r = r
  held_after h (hangs, s) r = absurd r

  opened_one :
      (n : ℕ) (h : ℕ → ℕ) (run : Opening Info × S)
      → ((info : Info) → run.0 ≡ opened info → Held (plus n h) run.1)
      → ((errno : ℕ) → run.0 ≡ cannot errno → Held h run.1)
      → Holds (λ _ s. Held (plus n h) s) (Held h) (obtained run)
  opened_one n h (opened info, s) yes_case no_case = yes_case info refl
  opened_one n h (cannot errno, s) yes_case no_case = no_case errno refl

  pub iget-Opens : (n : ℕ) → Opens (λ _ h. plus n h) (iget i n)
  iget-Opens n h s start =
      opened_one n h (i.open_inode n s) (λ info found. rw (law.opens n s info found, start) refl)
        λ errno failure. law.not_opened n s errno failure ∙ start

  after_close-Balanced :
      {A : Type 0} (n : ℕ) (h : ℕ → ℕ) (run : Reply A × S)
      → Holds (λ _ s. Held (plus n h) s) (Held (plus n h)) run
      → Holds (λ _ s. Held h s) (Held h) (after_close (i.close_inode n) run)
  after_close-Balanced n h (done a, s) r =
      succeed_or-Holds (Held h) (λ _ s. Held h s) a (i.close_inode n s) (law.closes n s h r)
        (λ _. law.closes n s h r)
  after_close-Balanced n h (failed _, s) r = law.closes n s h r
  after_close-Balanced n h (hangs, s) r = r

  pub with_inode-Balanced :
      {A : Type 0} (n : ℕ) (body : Info → Op S A)
      → ((info : Info) → Balanced (body info))
      → Balanced (with_inode i n body)
  with_inode-Balanced n body inner h s start =
      bind-Holds (Held h) (λ _ s. Held (plus n h) s) (λ _ s. Held h s) (iget i n s) _
        (iget-Opens n h s start)
        λ info s more. after_close-Balanced n h (body info s) (inner info (plus n h) s more)

  -- What a failure gives back.
  freeing :
      {A : Type 0} (k h : ℕ → ℕ) (clean : S → S) (run : Reply A × S) (Q : A → S → Type 0)
      → ((s : S) → Held k s → Held h (clean s))
      → Holds Q (Held k) run
      → Holds Q (Held h) (after_failure clean run)
  freeing k h clean (done a, s) Q frees r = r
  freeing k h clean (failed _, s) Q frees r = frees s r
  freeing k h clean (hangs, s) Q frees r = r

  convert-Balanced :
      {A : Type 0} (name : Name) (k : Name → Op S A)
      → ((u : Name) → Balanced (k u))
      → Balanced (convert i name >>= k)
  convert-Balanced name k inner h s start =
      bind-Holds (Held h) (λ _ s. Held h s) (λ _ s. Held h s) (convert i name s) k
        (obtained-Holds (Held h) (λ _ s. Held h s) (i.mbstoucs name, s) start (λ _ _. start))
        λ u s start. inner u h s start

  pub lookup_held :
      (dir : ℕ) (uname : Opening Name) (s : S) → held (lookup_named i dir uname s).1 ≡ held s
  lookup_held dir (opened u) s = law.lookup dir u s
  lookup_held dir (cannot errno) s = refl

  deletable-Opens :
      (dir : ℕ) (name : Name) → Opens (λ ino h. plus ino (plus dir h)) (deletable e dir name)
  unfolding deletable
  deletable-Opens dir name h s start =
      let one = plus dir h in
      let both : ℕ → S → Type 0 = λ ino s. Held (plus ino one) s in
      bind-Holds (Held h) (λ _ s. Held one s) both (iget i dir s) _ (iget-Opens dir h s start)
        λ info s opened_dir.
          bind-Holds (Held h) both both _ _
            (freeing one h (shut i dir) _ both (λ s more. law.closes dir s h more)
              (bind-Holds (Held one) (λ _ s. Held one s) both (located e dir name s) _
                (obtained-Holds (Held one) (λ _ s. Held one s) (lookup_mft i dir name s)
                  (lookup_held dir (i.mbstoucs name) s ∙ opened_dir)
                  (λ _ _. lookup_held dir (i.mbstoucs name) s ∙ opened_dir))
                λ ino s still. unless-Holds (Held one) both (ltb ino i.first_user) eperm _ s still (
                  bind-Holds (Held one) (λ _ s. both ino s) both (iget i ino s) _
                    (iget-Opens ino one s still) λ _ s two. two)))
            λ ino s two.
              freeing (plus ino one) h (λ s. shut i dir (shut i ino s)) _ both
                (λ s more. law.closes dir (shut i ino s) h (law.closes ino s one more))
                (unless-Holds (Held (plus ino one)) both info.is_reparse eopnotsupp (return ino) s
                  two two)

  pub do_unlink-Balanced : (dir : ℕ) (name : Name) → Balanced (do_unlink e dir name)
  unfolding do_unlink
  do_unlink-Balanced dir name =
      convert-Balanced name (λ uname. deletable e dir name >>= λ ino. delete_file e ino dir uname)
        λ uname h s start.
          bind-Holds (Held h) (λ ino s. Held (plus ino (plus dir h)) s) (λ _ s. Held h s)
            (deletable e dir name s) _ (deletable-Opens dir name h s start)
            λ ino s two.
              succeed_or-Holds (Held h) (λ _ s. Held h s) tt (e.delete ino dir uname s)
                (law.deletes ino dir uname s h two) (λ _. law.deletes ino dir uname s h two)

  pub do_link-Balanced :
      (n dir : ℕ) (name : Name) (allow : Bool) → Balanced (do_link e n dir name allow)
  unfolding do_link
  do_link-Balanced n dir name allow = with_inode-Balanced n _ λ info h s start.
      unless-Holds (Held h) (λ _ s. Held h s) (not allow && info.is_directory) eperm _ s start
        (convert-Balanced name _
          (λ uname h s start.
            unless-Holds (Held h) (λ _ s. Held h s) (ltb 255 (length uname)) enametoolong _ s start
              (with_inode-Balanced dir _
                (λ dir_info h s start.
                  unless-Holds (Held h) (λ _ s. Held h s) dir_info.is_reparse eopnotsupp _ s start
                    (bind-Holds (Held h) (λ _ s. Held h s) (λ _ s. Held h s)
                      (link_file e n dir uname s) _
                      (succeed_or-Holds (Held h) (λ _ s. Held h s) tt (e.link n dir uname s)
                        (law.link n dir uname s ∙ start) (λ _. law.link n dir uname s ∙ start))
                      λ _ s start. law.marks n dir s ∙ start))
                h s start))
          h s start)
