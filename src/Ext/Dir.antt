-- ===== src/Ext/Dir.antt =====
-- ext_fskit.c, lines 392 to 444: enumerating a directory from a cookie on. The offset of an entry is
-- what the library hands over, which is one inside the block that the entry stands in.
pub mod Delivery
pub mod Resume
use usbrw.Base.{
  ℕ, ◌+◌, Bool, true, false, not, ◌&&◌, ◌||◌, [], ◌∷◌, bit_and, ltb, ◌==◌, if◌then◌else◌, take,
}
use usbrw.Base.Int.{ℤ, is_zero}
use usbrw.Bridge.{Stat, blank_stat, einval, eio}
use usbrw.Ext.{dirent_abort, Result, ok, err, diverges}
use usbrw.Ext.Engine.{Engine, Name, DirEntry, Verdict, go_on, abort}
use usbrw.Ext.Files.{u32, getattr}
use usbrw.Ext.Reply.{Reply, done, failed, hangs}

-- The caller's function: number, name, attributes and the cookie of the next entry; what is not
-- zero says that there is no room. `C` is the state behind its context pointer.
abbrev pub DirentCb : Type 0 → Type 0
DirentCb C = ℕ → Name → Stat → ℕ → C → ℤ × C

-- `struct rd_ctx`, but for what does not change.
pub record RdCtx (C : Type 0) : Type 0 where
  pub ctx : C
  pub next : ℕ
  pub stopped : Bool

-- "." and "..", which the caller makes itself.
abbrev pub is_dots : Name → Bool
is_dots (a ∷ []) = a == b'.'
is_dots (a ∷ b ∷ []) = a == b'.' && b == b'.'
is_dots _ = false

abbrev pub entry_name : DirEntry → Name
entry_name entry = take (bit_and entry.name_len 0xff) entry.name

module _ {S C : Type 0} (e : Engine S) (live : Bool) (cb : DirentCb C) where
  -- The attributes that are handed over; blank if they cannot be had.
  stat_or_blank : Reply Stat × S → Stat × S
  stat_or_blank (done st, s) = (st, s)
  stat_or_blank (failed _, s) = (blank_stat, s)
  stat_or_blank (hangs, s) = (blank_stat, s)

  pub rd_proc : (start : ℕ) → DirEntry → RdCtx C → S → (Verdict × RdCtx C) × S
  unfolding stat_or_blank
  rd_proc start entry rc s =
      if rc.stopped
      then ((abort, rc), s)
      else let next = entry.offset + entry.rec_len in
        let rc = record rc { next = next } in
        if ltb entry.offset start
        then ((go_on, rc), s)
        else if is_dots (entry_name entry) || entry.inode == 0
        then ((go_on, rc), s)
        else let (st, s) = stat_or_blank (getattr e live entry.inode s) in
          let (r, ctx) = cb entry.inode (entry_name entry) st next rc.ctx in
          if is_zero r
          then ((go_on, record rc { ctx = ctx }), s)
          else ((abort, record rc { ctx = ctx; stopped = true }), s)

  iteration_reply : Result (Unit {0}) → ℕ → Reply ℕ
  iteration_reply (ok _) next = done next
  iteration_reply (err dirent_abort) next = done next
  iteration_reply (err _) next = failed eio
  iteration_reply diverges next = hangs

  -- The cookie is that of the last entry that was looked at.
  pub readdir : ℕ → (cookie : ℕ) → C → S → (Reply ℕ × C) × S
  unfolding iteration_reply
  readdir dir cookie ctx s =
      if not live
      then ((failed einval, ctx), s)
      else let start : RdCtx C = record { ctx = ctx; next = cookie; stopped = false } in
        let ((r, rc), s) = e.dir_iterate2 (RdCtx C) (u32 dir) (rd_proc cookie) start s in
        ((iteration_reply r rc.next, rc.ctx), s)
