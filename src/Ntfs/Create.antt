-- ===== src/Ntfs/Create.antt =====
-- ntfs_fskit.c, lines 573 to 656 and 832 to 955: new files, directories and symbolic links.
pub mod News
pub mod Links
mod Tests
use usbrw.Base.{
  ℕ, zero, suc, ◌+◌, ◌-◌, ◌*◌, ◌/◌, ◌%◌, Bool, true, false, not, ◌&&◌, Option, none, some, List, [],
  ◌∷◌, ◌++◌, ltb, leb, ◌==◌, if◌then◌else◌, length, take,
}
use usbrw.Bridge.{einval, eio, eperm, enametoolong, eopnotsupp}
use usbrw.Ext.Engine.{Name}
use usbrw.Ext.Reply.{Reply, done, failed, hangs, Op, ◌>>=◌, ◌>>◌, unless, refuse, return}
use usbrw.Ntfs.Attrs
use usbrw.Ntfs.Attrs.{
  Magic, symbolic_link, block_device, character_device, other_magic, DataAttr, path_max, Intx,
  intx_read,
}
use usbrw.Ntfs.Call.{
  Info, Inodes, succeed_or, obtained, always, afterwards, convert, iget, with_inode, needing,
  closing,
}
use usbrw.Ntfs.Data.{Opening, opened, cannot}

-- The calls of libntfs-3g that make inodes, beside those that look at them.
pub record Engine (S : Type 0) : Type 0 where
  pub attrs : Attrs.Engine S
  -- errno, if Windows forbids the name
  pub forbidden : Name → Option ℕ
  pub create : (dir : ℕ) → Name → (directory : Bool) → S → Opening ℕ × S
  pub create_symlink : (dir : ℕ) → Name → (target : Name) → S → Opening ℕ × S
  pub mark_new : ℕ → S → S
  pub close_in_dir : (ino dir : ℕ) → S → Option ℕ × S
  pub update_mctime : ℕ → S → S
  -- the tag of a reparse point, or 0
  pub reparse_tag : ℕ → S → ℕ

-- "%08lx"
pub hex_digits : ℕ → ℕ → List ℕ
hex_digits zero n = []
hex_digits (suc k) n =
    hex_digits k (n / 16) ++ ((if ltb (n % 16) 10 then b'0' + n % 16 else b'a' + n % 16 - 10) ∷ [])

-- "unsupported reparse tag 0x%08lx"
pub unsupported_tag : ℕ → List ℕ
unfolding hex_digits
unsupported_tag tag =
    (b'u' ∷ b'n' ∷ b's' ∷ b'u' ∷ b'p' ∷ b'p' ∷ b'o' ∷ b'r' ∷ b't' ∷ b'e' ∷ b'd' ∷ b' ' ∷ b'r' ∷ b'e'
      ∷ b'p' ∷ b'a' ∷ b'r' ∷ b's' ∷ b'e' ∷ b' ' ∷ b't' ∷ b'a' ∷ b'g' ∷ b' ' ∷ b'0' ∷ b'x' ∷ [])
    ++ hex_digits 8 tag

-- if (!e) e = EIO;
abbrev pub or_eio : ℕ → ℕ
or_eio errno = if errno == 0 then eio else errno

module _ {S : Type 0} (e : Engine S) where
  abbrev i : Inodes S
  i = e.attrs.inodes

  abbrev pub created : Opening ℕ × S → Reply ℕ × S
  created (opened ino, s) = (done ino, s)
  created (cannot errno, s) = (failed (or_eio errno), s)

  -- The new inode is closed in its directory, which gets new times in any case.
  abbrev pub finish : (dir ino : ℕ) → Op S ℕ
  finish dir ino s =
      let (closed, s) = e.close_in_dir ino dir (e.mark_new ino s) in
      succeed_or ino (closed, e.update_mctime dir s)

  -- Where names are checked: nothing, or what Windows forbids.
  abbrev pub checked : Option ℕ → Op S ℕ → Op S ℕ
  checked none op = op
  checked (some errno) op = refuse errno

  abbrev pub complaint : (windows_names : Bool) → Name → Option ℕ
  complaint true uname = e.forbidden uname
  complaint false uname = none

  abbrev pub make : (dir : ℕ) → Name → (directory : Bool) → Op S ℕ
  make dir uname directory s = created (e.create dir uname directory s)

  abbrev pub make_link : (dir : ℕ) → Name → (target : Name) → Op S ℕ
  make_link dir uname utarget s = obtained (e.create_symlink dir uname utarget s)

  -- Into a directory that is no reparse point.
  abbrev pub into : (dir : ℕ) → Op S ℕ → Op S ℕ
  into dir op = with_inode i dir λ info. unless info.is_reparse eopnotsupp op

  pub create : (usable windows_names : Bool) → (dir : ℕ) → Name → (directory : Bool) → Op S ℕ
  create usable windows_names dir name directory = needing usable (
      unless (leb 256 (length name)) enametoolong (
        unless (dir == i.file_extend) eperm (
          convert i name >>= λ uname. unless (ltb 255 (length uname)) enametoolong (
            into dir (
              checked (complaint windows_names uname) (make dir uname directory >>= finish dir))))))

  pub symlink : (usable : Bool) → (dir : ℕ) → (name target : Name) → Op S ℕ
  symlink usable dir name target = needing usable (
      unless (leb 256 (length name)) enametoolong (
        unless (dir == i.file_extend) eperm (
          convert i name >>= λ uname.
          unless (ltb 255 (length uname)) enametoolong (
            convert i target >>= λ utarget.
            into dir (make_link dir uname utarget >>= finish dir)))))

  module _ (mft buflen : ℕ) where
    -- strlcpy into the buffer
    abbrev pub copied : List ℕ → Op S (Option (List ℕ))
    copied text = return (some (take (buflen - 1) text))

    -- The tag is shown, where a reparse point cannot be read as a link.
    abbrev pub reparse_text : Opening Name × S → Reply (Option (List ℕ)) × S
    reparse_text (opened target, s) = copied target s
    reparse_text (cannot errno, s) =
        if errno == eopnotsupp
        then copied (unsupported_tag (e.reparse_tag mft s)) s
        else (failed errno, s)

    abbrev pub is_link : Magic → Bool
    is_link symbolic_link = true
    is_link _ = false

    abbrev pub decode : Name → Op S (List ℕ)
    decode target s = obtained (e.attrs.ucstombs target, s)

    abbrev pub size_ok : DataAttr → Bool
    size_ok attr =
        ltb e.attrs.intx_header attr.data_size
        && leb attr.data_size (e.attrs.intx_header + 2 * path_max)

    -- The buffer is left alone after a read that is not whole and no error.
    abbrev pub read_text : Option Intx → Op S (Option (List ℕ))
    read_text none = return none
    read_text (some intx) = unless (not (is_link intx.magic)) einval (decode intx.target >>= copied)

    abbrev pub link_text : DataAttr → Op S (Option (List ℕ))
    link_text attr = unless (not (size_ok attr)) einval (
        (λ s. succeed_or tt (e.attrs.malloc_errno attr.data_size, s))
        >> ((λ s. intx_read attr.data_size (e.attrs.pread_intx mft attr.data_size s))
            >>= read_text))

    abbrev pub link_data : Op S DataAttr
    link_data s = obtained (e.attrs.open_data mft s)

    abbrev pub link_target : Info → Op S (Option (List ℕ))
    link_target info =
        unless (not info.is_system) einval
          (link_data >>= λ attr. always (e.attrs.close_data mft) (link_text attr))

    abbrev pub text_of : (reparse : Bool) → Info → Op S (Option (List ℕ))
    text_of true info s = reparse_text (e.attrs.make_symlink mft s)
    text_of false info s = link_target info s

    -- What is put into the buffer, if anything.
    pub readlink : (usable : Bool) → Op S (Option (List ℕ))
    unfolding unsupported_tag
    readlink usable =
        needing (usable && not (buflen == 0))
          (with_inode i mft λ info. text_of info.is_reparse info)
