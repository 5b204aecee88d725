-- ===== src/Ext/Files/Sizes.antt =====
-- The size of a file after a write or a change of its size, over a library that does what it should.
use usbrw.Base.{
  ℕ, ◌+◌, ◌-◌, ◌*◌, ◌/◌, ◌%◌, ◌^◌, ◌<◌, ◌≤◌, ◌≡◌, refl, sym, ap, ◌∙◌, true, List, arith, ◌==◌,
  if◌then◌else◌, Bool-cases, inl, inr, ltb, ◌&&◌,
}
use usbrw.Base.Bits.{bit_and-mask}
use native.Mathlib.Nat.{mod-eq_of_lt, mod-lt, div-add-mod', one-le-pow, mul-div_cancel}
use usbrw.Bridge.{eio}
use usbrw.Ext.{Result, ok, err, diverges, ErrCode}
use usbrw.Ext.Engine.{Engine, Inode}
use usbrw.Ext.Files.{u32, update_inode_size, write_and_flush, write, punch_start, shrink, truncate}
use usbrw.Ext.Library.{Library}
use usbrw.Ext.Library.View.{Shelf, shelve}
use usbrw.Ext.Reply.{
  Op, done, and_then, ◌>>=◌, ◌>>◌, return, cleaning, translated, or_reply, or_eio, translate_errno,
  and_then-Passes,
}

-- Setting a size, if it succeeds, sets that size.
abbrev pub SetsSize : {S : Type 0} → Engine S → Type 0
SetsSize e = (i : Inode) (size : ℕ) (i' : Inode) → e.size_set i size ≡ ok i' → i'.i_size ≡ size

module _ {S A : Type 0} where
  -- A translated call that succeeds did so before.
  or_reply-done :
      (f : ErrCode → ℕ) (run : Result A × S) (a : A) (w : S)
      → or_reply f run ≡ (done a, w)
      → run ≡ (ok a, w)
  or_reply-done f (ok b, s) a w h = ground arith
  or_reply-done f (err c, s) a w h = ground arith
  or_reply-done f (diverges, s) a w h = ground arith

module _ {S : Type 0} {e : Engine S} {shelf : S → Shelf} (library : Library e shelf) where
  -- An inode that was written is there.
  written_size :
      (f : ErrCode → ℕ) (n : ℕ) (i : Inode) (s w : S)
      → or_reply f (e.write_inode n i s) ≡ (done tt, w)
      → ((shelf w).inode n).i_size ≡ i.i_size
  written_size f n i s w h =
      let put = library.write_inode n i s in
      let same : w ≡ put.state = ap (λ r. r.1) (sym (or_reply-done f _ tt w h) ∙ put.returns) in
      ap (λ x. ((shelf x).inode n).i_size) same
      ∙ ap (λ v. (v.inode n).i_size) put.leaves
      ∙ ap (λ b. (if b then i else (shelf s).inode n).i_size) (same_number n)
    where
      same_number : (k : ℕ) → (k == k) ≡ true
      same_number k = ground arith

  -- Giving blocks back changes nothing that is looked at here.
  shrink-keeps :
      (n : ℕ) (i : Inode) (size : ℕ) (s : S)
      → (i' : Inode) × (w : S) × (shrink e n i size s ≡ (done i', w)) × (shelf w ≡ shelf s)
  unfolding shrink
  shrink-keeps n i size s = elim (Bool-cases (ltb size i.i_size && e.has_valid_blocks i)) [
    | inl smaller ↦
        let punched = library.punch n i (punch_start (e.super s).block_size size) s in
        (
          library.punched n i (punch_start (e.super s).block_size size) s,
          punched.state,
          rw (smaller, punched.returns) refl,
          punched.leaves,
        )
    | inr kept ↦ (i, s, rw kept refl, refl)
  ]

  module _ (sets : SetsSize e) where
    resized_size :
        (n size : ℕ) (i : Inode) (r : Result Inode) (s w : S)
        → e.size_set i size ≡ r
        → and_then (or_reply translate_errno (r, s)) (λ inode s.
          let now = e.time s in
          or_eio (e.write_inode n (record inode { i_mtime = now; i_ctime = now; i_atime = now })) s)
          ≡ (done tt, w)
        → ((shelf w).inode n).i_size ≡ size
    resized_size n size i (ok i') s w set h = written_size (λ _. eio) n _ s w h ∙ sets i size i' set
    resized_size n size i (err c) s w set h = ground arith
    resized_size n size i diverges s w set h = ground arith

    update_inode_size-sets :
        (n size : ℕ) (s w : S)
        → update_inode_size e n size s ≡ (done tt, w)
        → ((shelf w).inode n).i_size ≡ size
    unfolding update_inode_size
    update_inode_size-sets n size s w =
        rw (library.read_inode n s)
          (resized_size n size ((shelf s).inode n) (e.size_set ((shelf s).inode n) size) s w refl)

    -- After a successful `extfsk_write` of a file, its size is where the write ended, modulo 2 ^ 64:
    -- whatever size it had before, so that a write in the middle of a file cuts it short.
    pub write_size :
        (ino offset : ℕ) (bytes : List ℕ) (k : ℕ) (s w : S)
        → write e true ino offset bytes s ≡ (done k, w)
        → ((shelf w).inode (u32 ino)).i_size ≡ (offset + k) % 2 ^ 64
    unfolding write
    write_size ino offset bytes k s w h =
        let opened =
          and_then-Passes (or_reply translate_errno (e.file_open (u32 ino) true s)) _ k w h in
        let f = opened.value in
        let finish : ℕ → Op S ℕ = λ written.
          update_inode_size e (u32 ino) ((offset + written) % 2 ^ 64) >> return written in
        let placed =
          and_then-Passes
            (cleaning (e.file_close f) (translated (e.file_lseek f (e.off_cast offset)))
              opened.state)
            (λ _. write_and_flush e f bytes >>= finish) k w opened.rest in
        let moved =
          and_then-Passes (write_and_flush e f bytes placed.state) finish k w placed.rest in
        let n = moved.value in
        let sized =
          and_then-Passes (update_inode_size e (u32 ino) ((offset + n) % 2 ^ 64) moved.state)
            (λ _. return n) k w moved.rest in
        let count : n ≡ k = ground (arith, sized.rest) in
        let state : sized.state ≡ w = ap (λ r. r.1) sized.rest in
        ap (λ x. ((shelf x).inode (u32 ino)).i_size) (sym state)
        ∙ update_inode_size-sets (u32 ino) ((offset + n) % 2 ^ 64) moved.state sized.state
            sized.first
        ∙ ap (λ j. (offset + j) % 2 ^ 64) count

    -- `extfsk_truncate`, if the size can be set, gives the file exactly that size, whether it grows
    -- or shrinks; names, the inodes in use and all other inodes stay as they were.
    pub truncate_lem :
        (ino size : ℕ) (s : S)
        → ((i : Inode) → (i' : Inode) × (e.size_set i size ≡ ok i'))
        → (w : S) × (i : Inode) × (truncate e true ino size s ≡ (done tt, w))
          × (i.i_size ≡ size)
          × (shelf w ≡ shelve (u32 ino) i (shelf s))
    unfolding truncate shrink
    truncate_lem ino size s works =
        let n = u32 ino in
        let i = (shelf s).inode n in
        let (cut, w, shrunk, same) = shrink-keeps n i size s in
        let (set, resized) = works cut in
        let now = e.time w in
        let stamped = record set { i_mtime = now; i_ctime = now } in
        let put = library.write_inode n stamped w in
        (
          put.state,
          stamped,
          rw (library.read_inode n s, shrunk, resized, put.returns) refl,
          sets cut size set resized,
          put.leaves ∙ ap (shelve n stamped) same,
        )

-- The first block that `extfsk_truncate` gives back lies behind the new end of the file, and no
-- whole block behind it is kept, for every block size that is a power of two.
pub punch_start_lem :
    (j newsize : ℕ)
    → let bs = 2 ^ j in
      newsize + bs ≤ 2 ^ 64
      → let start = punch_start bs newsize in (newsize ≤ start * bs) × (start * bs < newsize + bs)
unfolding punch_start
punch_start_lem j newsize fits =
    let bs = 2 ^ j in
    let x = newsize + bs - 1 in
    let some_bytes : 1 ≤ bs = one-le-pow j 2 (omega arith) in
    let no_wrap : x % 2 ^ 64 ≡ x = mod-eq_of_lt (omega arith) in
    let whole : x - x % bs ≡ x / bs * bs = omega (arith, div-add-mod' x bs) in
    let start : punch_start bs newsize * bs ≡ x - x % bs =
      rw (no_wrap, bit_and-mask j x, whole, mul-div_cancel (x / bs) some_bytes) refl in
    (omega (arith, start, mod-lt x some_bytes), omega (arith, start))
