-- ===== src/Ntfs/Xattr.antt =====
-- ntfs_fskit.c, lines 1084 to 1299: extended attributes, which are the named data streams of a file.
mod Tests
pub mod Listing
pub mod Streams
use usbrw.Base.{
  ℕ, zero, suc, ◌+◌, Bool, true, false, not, ◌&&◌, Option, none, some, List, [], ◌∷◌, ltb, ◌==◌,
  if◌then◌else◌, take, drop, length,
}
use usbrw.Base.Int.{ℤ, pos, negsuc}
use usbrw.Bridge.{einval, eio, eperm, enoent, erange, enoattr}
use usbrw.Ext.Engine.{Name}
use usbrw.Ext.Reply.{
  Reply, done, failed, hangs, Op, ◌>>=◌, ◌>>◌, unless, after_failure, refuse, return, and_then,
}
use usbrw.Ntfs.Call.{
  Info, Inodes, succeed_or, obtained, after_close, always, afterwards, ended, convert, iget,
  with_inode, needing, closing,
}
use usbrw.Ntfs.Data.{Opening, opened, cannot}

-- The calls of libntfs-3g on a stream of a file, by the file's number and the stream's name.
pub record Engine (S : Type 0) : Type 0 where
  pub inodes : Inodes S
  pub open_stream : ℕ → Name → S → Opening (Unit {0}) × S
  pub close_stream : ℕ → Name → S → S
  pub stream_size : ℕ → Name → S → ℕ
  -- reads from the start; a count, errno and the buffer
  pub pread : ℕ → Name → (size : ℕ) → S → (ℤ × ℕ × List ℕ) × S
  pub pwrite : ℕ → Name → (off : ℕ) → List ℕ → S → (ℤ × ℕ) × S
  -- to length 0
  pub truncate : ℕ → Name → S → Option ℕ × S
  pub add_stream : ℕ → Name → S → Option ℕ × S
  pub pclose : ℕ → Name → S → Option ℕ × S
  pub remove : ℕ → Name → S → Option ℕ × S
  pub update_ctime : ℕ → S → S
  pub is_archive : ℕ → S → Bool
  pub set_archive : ℕ → S → S
  pub get_search_ctx : ℕ → S → Opening (Unit {0}) × S
  pub put_search_ctx : ℕ → S → S
  -- the names of the data attributes, the unnamed one's empty, and errno after the last
  pub attributes : ℕ → S → List Name × ℕ
  pub ucstombs : Name → Option Name

-- Links, Interix files and system files have no extended attributes.
pub xattr_ok : Info → Bool
xattr_ok info = not info.is_reparse && not info.is_system

-- What the caller of `getxattr` gets: the size alone, or what is in the buffer.
pub data Answer : Type 0 where
  size_only : ℕ → Answer
  content : List ℕ → Answer

module _ {S : Type 0} (e : Engine S) (mft : ℕ) where
  abbrev i : Inodes S
  i = e.inodes

  -- if (!na) res = -ENOATTR;
  abbrev pub or_noattr : Opening (Unit {0}) × S → Reply (Unit {0}) × S
  or_noattr (opened _, s) = (done tt, s)
  or_noattr (cannot _, s) = (failed enoattr, s)

  module _ (uname : Name) where
    abbrev pub existing : Op S (Unit {0})
    existing s = or_noattr (e.open_stream mft uname s)

    abbrev pub stream : Op S (Unit {0})
    stream s = obtained (e.open_stream mft uname s)

    -- A short read is an error.
    abbrev pub read_all : (size : ℕ) → (ℤ × ℕ × List ℕ) × S → Reply Answer × S
    read_all size ((pos k, errno, bytes), s) =
        if k == size then (done (content (take k bytes)), s) else (failed eio, s)
    read_all size ((negsuc n, errno, bytes), s) = (failed errno, s)

    abbrev pub answer : (buflen : ℕ) → Op S Answer
    answer buflen s =
        let size = e.stream_size mft uname s in
        if buflen == 0
        then (done (size_only size), s)
        else if ltb buflen size
        then (failed erange, s)
        else read_all size (e.pread mft uname size s)

    abbrev pub archived : Bool → S → S
    archived true s = s
    archived false s = e.set_archive mft s

    -- if (!(ni->flags & FILE_ATTR_ARCHIVE)) { ... }
    abbrev pub archive : Op S (Unit {0})
    archive s = (done tt, archived (e.is_archive mft s) s)

    abbrev pub add : Op S (Unit {0})
    add s = succeed_or tt (e.add_stream mft uname s)

    -- The stream is emptied or made; then it is open, unless that failed.
    pub prepared : Opening (Unit {0}) × S → Reply (Unit {0}) × S
    prepared (opened _, s) =
        after_failure (e.close_stream mft uname) (succeed_or tt (e.truncate mft uname s))
    prepared (cannot _, s) = (add >> archive >> stream) s

    abbrev pub prepare : Op S (Unit {0})
    prepare s = prepared (e.open_stream mft uname s)

    -- A write that took nothing ends the operation, and as a success if it left errno 0.
    abbrev pub put_piece : (ℤ × ℕ) × S → (ℕ → S → Reply Bool × S) → Reply Bool × S
    put_piece ((pos zero, errno), s) rest = ended false errno s
    put_piece ((negsuc n, errno), s) rest = ended false errno s
    put_piece ((pos (suc k), errno), s) rest = rest (suc k) s

    -- Whether all bytes were written.
    pub put_loop : (fuel off : ℕ) → List ℕ → Op S Bool
    put_loop fuel off [] s = (done true, s)
    put_loop zero off (b ∷ bytes) s = (hangs, s)
    put_loop (suc fuel) off (b ∷ bytes) s =
        put_piece (e.pwrite mft uname off (b ∷ bytes) s)
          λ k s. put_loop fuel (off + k) (drop k (b ∷ bytes)) s

    abbrev pub flush : Op S (Unit {0})
    flush s = succeed_or tt (e.pclose mft uname s)

    abbrev pub stamp : Op S (Unit {0})
    stamp s = archive (e.update_ctime mft s)

    abbrev pub completed : (whole : Bool) → Op S (Unit {0})
    completed true = flush >> stamp
    completed false = return tt

    -- The stream is closed in any case.
    pub store : List ℕ → Op S (Unit {0})
    unfolding prepared put_loop
    store bytes =
        prepare >> always (e.close_stream mft uname) (put_loop (length bytes) 0 bytes >>= completed)

    abbrev pub strip : Op S (Unit {0})
    strip s = succeed_or tt (e.remove mft uname s)

    abbrev pub mark : Op S (Unit {0})
    mark s = (done tt, e.set_archive mft (e.update_ctime mft s))

  -- `usable`: neither the volume nor the name is NULL.
  pub getxattr : (usable : Bool) → Name → (buflen : ℕ) → Op S Answer
  unfolding xattr_ok
  getxattr usable name buflen = needing usable (
      with_inode i mft λ info. unless (not (xattr_ok info)) enoattr (
        convert i name >>= λ uname.
        existing uname >> always (e.close_stream mft uname) (answer uname buflen)))

  pub setxattr : (usable : Bool) → Name → List ℕ → Op S (Unit {0})
  unfolding xattr_ok store
  setxattr usable name bytes = needing usable (
      with_inode i mft
        λ info. unless (not (xattr_ok info)) eperm (convert i name >>= λ uname. store uname bytes))

  pub removexattr : (usable : Bool) → Name → Op S (Unit {0})
  unfolding xattr_ok
  removexattr usable name = needing usable (
      with_inode i mft λ info. unless (not (xattr_ok info)) enoattr (
        convert i name >>= λ uname.
        existing uname >> always (e.close_stream mft uname) (strip uname >> mark uname)))

  -- The callback returns whether it wants no more names.
  module _ {P : Type 0} (cb : P → Name → Bool × P) where
    abbrev pub told : Bool × P → (P → Reply (Unit {0}) × P) → Reply (Unit {0}) × P
    told (true, p) rest = (done tt, p)
    told (false, p) rest = rest p

    -- A name that cannot be converted is passed over.
    abbrev pub tell : Option Name → (P → Reply (Unit {0}) × P) → P → Reply (Unit {0}) × P
    tell none rest p = rest p
    tell (some name) rest p = told (cb p name) rest

    pub list_loop : List Name → (errno : ℕ) → P → Reply (Unit {0}) × P
    list_loop [] errno p = (if errno == enoent then done tt else failed errno, p)
    list_loop ([] ∷ names) errno p = list_loop names errno p
    list_loop ((c ∷ name) ∷ names) errno p =
        tell (e.ucstombs (c ∷ name)) (λ p. list_loop names errno p) p

    abbrev pub closed : (Reply (Unit {0}) × S) × P → (Reply (Unit {0}) × S) × P
    closed (run, p) = (after_close (e.inodes.close_inode mft) run, p)

    abbrev pub list_ctx : P → Opening (Unit {0}) × S → (Reply (Unit {0}) × S) × P
    list_ctx p (cannot errno, s) = ((failed errno, s), p)
    list_ctx p (opened _, s) =
        let (names, errno) = e.attributes mft s in
        let (r, p) = list_loop names errno p in ((r, e.put_search_ctx mft s), p)

    abbrev pub list_opened : P → Opening Info × S → (Reply (Unit {0}) × S) × P
    list_opened p (cannot errno, s) = ((failed errno, s), p)
    list_opened p (opened info, s) =
        closed (if xattr_ok info then list_ctx p (e.get_search_ctx mft s) else ((done tt, s), p))

    pub listxattr : (usable : Bool) → P → S → (Reply (Unit {0}) × S) × P
    unfolding xattr_ok list_loop
    listxattr usable p s =
        if usable then list_opened p (e.inodes.open_inode mft s) else ((failed einval, s), p)
