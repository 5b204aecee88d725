-- ===== src/Ntfs/Xattr/Listing.antt =====
-- Which names a listing of extended attributes hands over.
use usbrw.Base.{
  ℕ, ◌≡◌, refl, Bool, true, false, ◌||◌, Option, none, some, List, [], ◌∷◌, ◌==◌, if◌then◌else◌,
  Option-cases, Bool-cases, inl, inr,
}
use usbrw.Bridge.{enoent}
use usbrw.Ext.Engine.{Name}
use usbrw.Ext.Reply.{Reply, done, failed}
use usbrw.Ntfs.Call.{Info}
use usbrw.Ntfs.Data.{opened}
use usbrw.Ntfs.Xattr.{Engine, xattr_ok, told, list_loop, listxattr}

-- A name in the caller's encoding, before others.
abbrev pub before : Option Name → List Name → List Name
before none names = names
before (some name) names = name ∷ names

-- The names of the streams, in order, but for the unnamed stream and names that have no encoding.
abbrev pub shown : (Name → Option Name) → List Name → List Name
shown ucstombs [] = []
shown ucstombs ([] ∷ names) = shown ucstombs names
shown ucstombs ((c ∷ name) ∷ names) = before (ucstombs (c ∷ name)) (shown ucstombs names)

module _ {P : Type 0} (cb : P → Name → Bool × P) where
  abbrev pub onward : Bool × P → (P → Bool × P) → Bool × P
  onward (true, p) rest = (true, p)
  onward (false, p) rest = rest p

  -- The names are handed over in order, until the callback wants no more; whether it did.
  abbrev pub deliver : List Name → P → Bool × P
  deliver [] p = (false, p)
  deliver (name ∷ names) p = onward (cb p name) (deliver names)

  module _ {S : Type 0} (e : Engine S) (mft : ℕ) (errno : ℕ) where
    abbrev pub verdict : Bool → Reply (Unit {0})
    verdict stopped = if stopped || errno == enoent then done tt else failed errno

    abbrev reported : Bool × P → Reply (Unit {0}) × P
    reported (stopped, p) = (verdict stopped, p)

    told_on :
        (answer : Bool × P) (loop : P → Reply (Unit {0}) × P) (rest : P → Bool × P)
        → ((p : P) → loop p ≡ reported (rest p))
        → told e mft cb answer loop ≡ reported (onward answer rest)
    told_on (true, p) loop rest h = refl
    told_on (false, p) loop rest h = h p

    list_loop-deliver :
        (names : List Name) (p : P)
        → list_loop e mft cb names errno p ≡ reported (deliver (shown e.ucstombs names) p)
    unfolding list_loop
    list_loop-deliver [] p = refl
    list_loop-deliver ([] ∷ names) p = list_loop-deliver names p
    list_loop-deliver ((c ∷ name) ∷ names) p = elim (Option-cases (e.ucstombs (c ∷ name))) [
      | inl no_encoding ↦ rw no_encoding (list_loop-deliver names p)
      | inr (text, encoded) ↦ rw encoded (
          told_on (cb p text) (λ p. list_loop e mft cb names errno p)
            (deliver (shown e.ucstombs names)) (list_loop-deliver names))
    ]

  -- `nfsk_listxattr` of a file that may have extended attributes, with no failure but perhaps one
  -- at the end of the attributes: the callback gets the name of every named data stream, in order
  -- and once, until it wants no more; names that have no encoding are left out. The listing
  -- succeeds if the callback stopped it, or if it ended as there were no more attributes.
  pub listxattr-deliver :
      {S : Type 0} (e : Engine S) (mft errno : ℕ) (names : List Name) (info : Info) (p : P)
      (s s1 s2 s3 : S)
      → e.inodes.open_inode mft s ≡ (opened info, s1)
      → xattr_ok info ≡ true
      → e.get_search_ctx mft s1 ≡ (opened tt, s2)
      → e.attributes mft s2 ≡ (names, errno)
      → e.inodes.close_inode mft (e.put_search_ctx mft s2) ≡ (none, s3)
      → let (stopped, q) = deliver (shown e.ucstombs names) p in
        let ((reply, w), q') = listxattr e mft cb true p s in
        (q' ≡ q) × (reply ≡ verdict e mft errno stopped)
  unfolding listxattr
  listxattr-deliver e mft errno names info p s s1 s2 s3 ho ok hc ha hx =
      rw (ho, ok, hc, ha, list_loop-deliver e mft errno names p)
        (elim (Bool-cases ((deliver (shown e.ucstombs names) p).0 || errno == enoent)) [
          | inl well ↦ rw (well, hx) (refl, refl)
          | inr broken ↦ rw broken (refl, refl)
        ])
