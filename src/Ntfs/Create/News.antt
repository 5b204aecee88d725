-- ===== src/Ntfs/Create/News.antt =====
-- What a new file or directory does to the names of a volume, whichever calls of the library fail.
use usbrw.Base.{
  ℕ, ◌≡◌, ◌≤◌, refl, ◌∙◌, Bool, true, false, ◌&&◌, Option, none, some, ltb, leb, ◌==◌, length,
  arith, Bool-cases, inl, inr, not_ltb→le,
}
use usbrw.Bridge.{eperm, enametoolong, eopnotsupp}
use usbrw.Ext.Engine.{Name}
use usbrw.Ext.Library.View.{same_name}
use usbrw.Ext.Reply.{Op, ◌>>=◌}
use usbrw.Ntfs.Call.{Inodes, uni}
use usbrw.Ntfs.Call.Holds.{
  convert-Holds, Holds, weaken-Holds, bind-Holds, unless-Holds, succeed_or-Holds, with_inode-Holds,
}
use usbrw.Ntfs.Create.{Engine, created, finish, checked, complaint, make, into, create}
use usbrw.Ntfs.Data.{Opening, opened, cannot}

-- The names in each directory, and which files are directories.
pub record View : Type 0 where
  pub names : ℕ → Name → Option ℕ
  pub is_directory : ℕ → Bool

-- No name but one is new, and no name that was there stands for something else.
pub record Only (dir : ℕ) (u : Name) (t t' : View) : Type 0 where
  pub elsewhere :
      (d : ℕ) (x : Name) → (d == dir && same_name x u) ≡ false → t'.names d x ≡ t.names d x
  pub kept : (d : ℕ) (x : Name) (m : ℕ) → t.names d x ≡ some m → t'.names d x ≡ some m

-- Any call may fail; making an inode for a name that is taken fails.
pub record Creates {S : Type 0} (e : Engine S) (v : S → View) : Type 0 where
  pub open_inode : (n : ℕ) (s : S) → v (e.attrs.inodes.open_inode n s).1 ≡ v s
  pub close_inode : (n : ℕ) (s : S) → v (e.attrs.inodes.close_inode n s).1 ≡ v s
  pub mark_new : (n : ℕ) (s : S) → v (e.mark_new n s) ≡ v s
  pub close_in_dir : (n dir : ℕ) (s : S) → v (e.close_in_dir n dir s).1 ≡ v s
  pub update_mctime : (n : ℕ) (s : S) → v (e.update_mctime n s) ≡ v s
  pub create_only :
      (dir : ℕ) (u : Name) (directory : Bool) (s : S)
      → Only dir u (v s) (v (e.create dir u directory s).1)
  pub create_done :
      (dir : ℕ) (u : Name) (directory : Bool) (s : S) (n : ℕ)
      → (e.create dir u directory s).0 ≡ opened n
      → ((v s).names dir u ≡ none)
        × ((v (e.create dir u directory s).1).names dir u ≡ some n)
        × ((v (e.create dir u directory s).1).is_directory n ≡ directory)

-- A new file has a name that was free, and that may be given: if names are checked, it is none that
-- is forbidden.
pub record IsNew (dir : ℕ) (u : Name) (directory windows_names : Bool) (forbidden : Option ℕ)
    (t : View) (n : ℕ) (t' : View) : Type 0 where
  pub was_free : t.names dir u ≡ none
  pub named : t'.names dir u ≡ some n
  pub right_kind : t'.is_directory n ≡ directory
  pub short : length u ≤ 255
  pub may_be : windows_names ≡ true → forbidden ≡ none

module _ {S : Type 0} {e : Engine S} {v : S → View} (law : Creates e v) (dir : ℕ) (name : Name)
    (directory windows_names : Bool) (t0 : View) where
  abbrev i : Inodes S
  i = e.attrs.inodes

  abbrev u : Name
  u = uni e.attrs.inodes name

  abbrev Kept : S → Type 0
  Kept s = Only dir u t0 (v s)

  abbrev Named : ℕ → S → Type 0
  Named n s =
      Kept s
      × (t0.names dir u ≡ none)
      × ((v s).names dir u ≡ some n)
      × ((v s).is_directory n ≡ directory)

  abbrev Made : ℕ → S → Type 0
  Made n s = Kept s × IsNew dir u directory windows_names (e.forbidden u) t0 n (v s)

  unchanged : (s : S) → v s ≡ t0 → Kept s
  unchanged s same = rw same (record { elsewhere = λ d x h. refl; kept = λ d x m h. h })

  created-Holds :
      (run : Opening ℕ × S)
      → Kept run.1
      → ((n : ℕ) → run.0 ≡ opened n → Named n run.1)
      → Holds Named Kept (created e run)
  created-Holds (opened n, s) kept h = h n refl
  created-Holds (cannot errno, s) kept h = kept

  make-Holds : (s : S) → v s ≡ t0 → Holds Named Kept (make e dir u directory s)
  make-Holds s same =
      let kept : Kept (e.create dir u directory s).1 =
        rw (← same) (law.create_only dir u directory s) in
      created-Holds (e.create dir u directory s) kept λ n found.
        let h = law.create_done dir u directory s n found in (kept, rw (← same) (h.0), h.1, h.2)

  finish-Holds : (n : ℕ) (s : S) → Named n s → Holds Named Kept (finish e dir n s)
  finish-Holds n s h =
      let s' = e.mark_new n s in
      let s'' = (e.close_in_dir n dir s').1 in
      let same : v (e.update_mctime dir s'') ≡ v s =
        law.update_mctime dir s'' ∙ law.close_in_dir n dir s' ∙ law.mark_new n s in
      succeed_or-Holds Kept Named n ((e.close_in_dir n dir s').0, e.update_mctime dir s'')
        (rw same (h.0)) (λ _. rw same h)

  may_be : (wanted : Bool) → complaint e wanted u ≡ none → wanted ≡ true → e.forbidden u ≡ none
  may_be true none_told h = none_told
  may_be false none_told h = ground arith

  -- The steps between opening and closing the directory.
  abbrev body : Op S ℕ
  body = checked e (complaint e windows_names u) (make e dir u directory >>= finish e dir)

  checked-Holds :
      (complaints : Option ℕ) (s : S)
      → v s ≡ t0
      → length u ≤ 255
      → (complaints ≡ none → windows_names ≡ true → e.forbidden u ≡ none)
      → Holds
          (λ n w. Kept w × IsNew dir u directory windows_names (e.forbidden u) t0 n (v w))
          Kept
          (checked e complaints (make e dir u directory >>= finish e dir) s)
  checked-Holds (some errno) s same short right = unchanged s same
  checked-Holds none s same short right =
      weaken-Holds Kept Named
        (λ n w. Kept w × IsNew dir u directory windows_names (e.forbidden u) t0 n (v w)) _
        (λ n w h. (
          h.0,
          record {
            was_free = h.1;
            named = h.2;
            right_kind = h.3;
            short = short;
            may_be = right refl;
          },
        ))
        (bind-Holds Kept Named Named (make e dir u directory s) _ (make-Holds s same) finish-Holds)

  into-Holds : (s : S) → v s ≡ t0 → length u ≤ 255 → Holds Made Kept (into e dir body s)
  into-Holds s same short =
      with_inode-Holds i v law.open_inode law.close_inode
        (λ n t. IsNew dir u directory windows_names (e.forbidden u) t0 n t) (Only dir u t0) dir _ s
        (unchanged s same)
        λ info s' still.
          unless-Holds Kept Made info.is_reparse eopnotsupp body s' (unchanged s' (still ∙ same)) (
            checked-Holds (complaint e windows_names u) s' (still ∙ same) short
              (may_be windows_names))

-- `nfsk_create` returns, and whichever calls of the library fail no name but the given one is
-- new, and no name that was there stands for another file. After a success the name was free,
-- has at most 255 units, is none that Windows forbids if such names are not wanted, and stands for
-- the new inode, which is a directory exactly if one was asked for.
pub create-IsNew :
    {S : Type 0} {e : Engine S} {v : S → View} (law : Creates e v) (dir : ℕ) (name : Name)
    (directory windows_names usable : Bool) (s : S)
    → let u = uni e.attrs.inodes name in
      Holds
        (λ n w.
          Only dir u (v s) (v w)
          × IsNew dir u directory windows_names (e.forbidden u) (v s) n (v w))
        (λ w. Only dir u (v s) (v w))
        (create e usable windows_names dir name directory s)
unfolding create
create-IsNew {e} {v} law dir name directory windows_names false s =
    unchanged law dir name directory windows_names (v s) s refl
create-IsNew {e} {v} law dir name directory windows_names true s =
    let u = uni e.attrs.inodes name in
    let kept : Only dir u (v s) (v s) =
      unchanged law dir name directory windows_names (v s) s refl in
    let K = Kept law dir name directory windows_names (v s) in
    let M = Made law dir name directory windows_names (v s) in
    unless-Holds K M (leb 256 (length name)) enametoolong _ s kept (
      unless-Holds K M (dir == e.attrs.inodes.file_extend) eperm _ s kept (
        convert-Holds K e.attrs.inodes M name _ s kept (elim (Bool-cases (ltb 255 (length u))) [
          | inl long ↦ rw long kept
          | inr short ↦ rw short (
              into-Holds law dir name directory windows_names (v s) s refl
                (not_ltb→le 255 (length u) short))
        ])))
