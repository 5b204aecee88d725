-- ===== src/Ext/Dir/Delivery.antt =====
-- What an enumeration delivers, over a library that goes through the entries of a directory.
use usbrw.Base.{
  ℕ, ◌+◌, ◌≡◌, refl, true, false, ◌||◌, List, [], ◌∷◌, inl, inr, ltb, ◌==◌, if◌then◌else◌,
  Bool-cases,
}
use usbrw.Base.Int.{is_zero}
use usbrw.Base.{ap, take, not, ◌&&◌, ◌*◌, ◌%◌, ◌^◌, arith, Bool}
use usbrw.Base.Bits.{bit_and-mask}
use usbrw.Bridge.{Stat, blank_stat}
use usbrw.Ext.{Result, ok}
use usbrw.Ext.Dir.{
  DirentCb, RdCtx, is_dots, entry_name, stat_or_blank, rd_proc, iteration_reply, readdir,
}
use usbrw.Ext.Engine.{Engine, Inode, Name, DirEntry, Verdict, go_on, abort, changed_abort}
use usbrw.Ext.Files.{u32, stat_mode, file_type, fill_stat, getattr}
use usbrw.Ext.Library.{Library}
use usbrw.Ext.Library.View.{Shelf, same_name}
use usbrw.Ext.Reply.{done}

module _ {S P : Type 0} where
  abbrev carry_on :
      (Verdict × P) × S → (P → S → (Result (Unit {0}) × P) × S) → (Result (Unit {0}) × P) × S
  carry_on ((go_on, p), s) rest = rest p s
  carry_on ((abort, p), s) rest = ((ok tt, p), s)
  carry_on ((changed_abort entry, p), s) rest = ((ok tt, p), s)

  -- The entries are gone through in order until the function wants no more.
  abbrev pub walk :
      List DirEntry → (DirEntry → P → S → (Verdict × P) × S) → P → S → (Result (Unit {0}) × P) × S
  walk [] f p s = ((ok tt, p), s)
  walk (entry ∷ entries) f p s = carry_on (f entry p s) (walk entries f)

-- A library whose `dir_iterate2` goes through these entries of the directory, in a state.
abbrev pub Iterates : {S : Type 0} → Engine S → ℕ → List DirEntry → S → Type 1
Iterates {S} e dir entries s =
    (P : Type 0) (f : DirEntry → P → S → (Verdict × P) × S) (p : P)
    → e.dir_iterate2 P dir f p s ≡ walk entries f p s

-- What is handed over for an entry: its number, name, attributes and the cookie behind it.
pub record Item : Type 0 where
  pub number : ℕ
  pub name : Name
  pub attributes : Stat
  pub next : ℕ

-- The low byte of name_len is the length of the name; the high one has the type.
abbrev pub name_of : DirEntry → Name
name_of entry = take (entry.name_len % 256) entry.name

-- Every permission is granted; a block has 512 bytes.
abbrev pub attributes_of : Inode → ℕ → Stat
attributes_of inode number = record blank_stat {
  mft = number;
  mode = stat_mode (file_type inode.i_mode);
  links = inode.i_links_count;
  size = inode.i_size;
  alloc_size = inode.i_blocks * 512 % 2 ^ 64;
  uid = inode.i_uid;
  gid = inode.i_gid;
  atime = inode.i_atime;
  mtime = inode.i_mtime;
  ctime = inode.i_ctime;
}

abbrev pub item_of : Shelf → DirEntry → Item
item_of v entry = record {
  number = entry.inode;
  name = name_of entry;
  attributes = attributes_of (v.inode (u32 entry.inode)) entry.inode;
  next = entry.offset + entry.rec_len;
}

-- An entry in use, by another name than "." and "..".
abbrev pub is_listed : DirEntry → Bool
is_listed entry =
    not (same_name (name_of entry) (b'.' ∷ []))
    && not (same_name (name_of entry) (b'.' ∷ b'.' ∷ []))
    && ltb 0 entry.inode

name_of-eq : (entry : DirEntry) → entry_name entry ≡ name_of entry
name_of-eq entry = ap (λ k. take k entry.name) (bit_and-mask 8 entry.name_len)

not_dots :
    (name : Name) → is_dots name ≡ (same_name name (b'.' ∷ []) || same_name name (b'.' ∷ b'.' ∷ []))
not_dots [] = refl
not_dots (a ∷ []) = ground arith
not_dots (a ∷ b ∷ []) = ground arith
not_dots (a ∷ b ∷ c ∷ name) = ground arith

passed_over :
    (entry : DirEntry) → (is_dots (entry_name entry) || entry.inode == 0) ≡ not (is_listed entry)
passed_over entry = rw (name_of-eq entry, not_dots (name_of entry)) (ground arith)

-- The entries at the cookie or behind it, without ".", ".." and the ones not in use.
abbrev pub items : ℕ → Shelf → List DirEntry → List Item
items cookie v [] = []
items cookie v (entry ∷ entries) =
    let rest = items cookie v entries in
    if ltb entry.offset cookie
    then rest
    else if not (is_listed entry)
    then rest
    else item_of v entry ∷ rest

module _ {C : Type 0} (cb : DirentCb C) where
  -- The items are handed over in order until one is refused.
  abbrev pub deliver : List Item → C → C
  deliver [] ctx = ctx
  deliver (i ∷ is) ctx =
      let (r, ctx) = cb i.number i.name i.attributes i.next ctx in
      let rest = deliver is ctx in if is_zero r then rest else ctx

  module _ {S : Type 0} {e : Engine S} {shelf : S → Shelf} (library : Library e shelf) (cookie : ℕ)
      (s : S) where
    getattr-eq :
        (n : ℕ) → getattr e true n s ≡ (done (attributes_of ((shelf s).inode (u32 n)) n), s)
    unfolding getattr fill_stat
    getattr-eq n = rw (library.read_inode (u32 n) s) refl

    -- Where an enumeration ends up that has not been stopped yet.
    walk_lem :
        (entries : List DirEntry) (ctx : C) (next : ℕ)
        → (rc : RdCtx C) × (walk entries
              (rd_proc e true cb cookie)
              (record { ctx = ctx; next = next; stopped = false })
              s
            ≡ ((ok tt, rc), s))
          × (rc.ctx ≡ deliver (items cookie (shelf s) entries) ctx)
    unfolding rd_proc stat_or_blank
    walk_lem [] ctx next = (_, refl, refl)
    walk_lem (entry ∷ entries) ctx next =
        let after = entry.offset + entry.rec_len in
        elim (Bool-cases (ltb entry.offset cookie)) [
          | inl before ↦ rw before (walk_lem entries ctx after)
          | inr here ↦ elim (Bool-cases (not (is_listed entry))) [
            | inl hidden ↦ rw (here, passed_over entry, hidden) (walk_lem entries ctx after)
            | inr shown ↦
                let i = item_of (shelf s) entry in
                let answer = cb i.number i.name i.attributes i.next ctx in
                elim (Bool-cases (is_zero answer.0)) [
                  | inl accepted ↦
                      rw
                        (
                          here,
                          passed_over entry,
                          shown,
                          name_of-eq entry,
                          getattr-eq entry.inode,
                          accepted,
                        )
                        (walk_lem entries answer.1 after)
                  | inr refused ↦
                      rw
                        (
                          here,
                          passed_over entry,
                          shown,
                          name_of-eq entry,
                          getattr-eq entry.inode,
                          refused,
                        )
                        (_, refl, refl)
                ]
          ]
        ]

    pub readdir_lem :
        (dir : ℕ) (entries : List DirEntry) (ctx : C)
        → Iterates e (u32 dir) entries s
        → (next : ℕ) × (readdir e true cb dir cookie ctx s
            ≡ ((done next, deliver (items cookie (shelf s) entries) ctx), s))
    unfolding readdir iteration_reply
    readdir_lem dir entries ctx iterates =
        let (rc, walked, delivered) = walk_lem entries ctx cookie in
        (rc.next, rw (iterates (RdCtx C) (rd_proc e true cb cookie) _, walked, delivered) refl)
