-- ===== src/Ntfs/Readdir/Delivery.antt =====
-- What an enumeration delivers, over a library that goes through the entries of a directory.
use usbrw.Base.{
  ℕ, zero, suc, ◌≡◌, refl, ap, Bool, true, false, Option, none, some, List, [], ◌∷◌, ltb, inl, inr,
  if◌then◌else◌, Bool-cases, Option-cases,
}
use usbrw.Base.Int.{ℤ, pos, negsuc}
use usbrw.Base.{not, take, ◌&&◌, ◌||◌, arith, ◌∙◌}
use usbrw.Ext.Library.View.{same_name}
use usbrw.Ext.Reply.{Reply, done, failed}
use usbrw.Ntfs.Readdir.{is_dots, entry_stat}
use usbrw.Ext.Dir.{DirentCb}
use usbrw.Ntfs.Readdir.{
  Library, Entry, Dir, Verdict, go_on, stop, broken, Ending, finished, interrupted, Prev, RdCtx,
  is_shown, prev_of, keep_back, after_cb, hand_over, rd_filldir, outcome, last_result, flush_last,
  closing, readdir,
}

module _ {P : Type 0} (errno end : ℕ) where
  abbrev carry_on : Verdict × P → Entry → (P → (Ending × ℕ) × P) → (Ending × ℕ) × P
  carry_on (go_on, p) entry rest = rest p
  carry_on (stop, p) entry rest = ((interrupted errno, entry.position), p)
  carry_on (broken, p) entry rest = ((interrupted errno, entry.position), p)

  -- The entries are gone through in order until the function wants no more.
  abbrev pub walk : List Entry → (Entry → P → Verdict × P) → P → (Ending × ℕ) × P
  walk [] f p = ((finished, end), p)
  walk (entry ∷ entries) f p = carry_on (f entry p) entry (walk entries f)

-- The entries at a position or behind it.
abbrev pub entries_from : ℕ → List Entry → List Entry
entries_from cookie [] = []
entries_from cookie (entry ∷ entries) =
    let rest = entries_from cookie entries in
    if ltb entry.position cookie then rest else entry ∷ rest

-- A library whose `ntfs_readdir` goes through these entries of a directory, from the position on.
abbrev pub Reads : Library → ℕ → List Entry → (errno end : ℕ) → Type 1
Reads lib dir entries errno end =
    (P : Type 0) (cookie : ℕ) (f : Entry → P → Verdict × P) (p : P)
    → lib.read_entries P dir cookie f p ≡ walk errno end (entries_from cookie entries) f p

-- An entry that is no DOS alias, has another name than "." and "..", and is not one of the first two
-- inodes.
abbrev pub is_reported : Entry → Bool
is_reported entry =
    not entry.is_dos
    && not (same_name entry.name (b'.' ∷ []))
    && not (same_name entry.name (b'.' ∷ b'.' ∷ []))
    && ltb 1 entry.number

not_dots :
    (name : List ℕ)
    → is_dots name ≡ (same_name name (b'.' ∷ []) || same_name name (b'.' ∷ b'.' ∷ []))
not_dots [] = refl
not_dots (a ∷ []) = ground arith
not_dots (a ∷ b ∷ []) = ground arith
not_dots (a ∷ b ∷ c ∷ name) = ground arith

shown-eq : (entry : Entry) → is_shown entry ≡ is_reported entry
shown-eq entry = rw (not_dots entry.name) (ground arith)

abbrev pub shown : List Entry → List Entry
shown [] = []
shown (entry ∷ entries) =
    let rest = shown entries in if is_reported entry then entry ∷ rest else rest

-- The answer: the caller's error, else that of closing the directory, else success.
abbrev pub answer : (reported closed : Option ℕ) → Reply (Unit {0})
answer none none = done tt
answer none (some errno) = failed errno
answer (some errno) closed = failed errno

-- An entry with its name in UTF-8, which is cut to 255 bytes.
abbrev pub named_prev : Library → Bool → Entry → List ℕ → Prev
named_prev lib want_attrs entry mbs = record {
  mft = entry.number;
  name = take 255 mbs;
  st = entry_stat lib want_attrs entry;
}

-- Where the next entry stands, or the end of the directory.
abbrev pub next_position : ℕ → List Entry → ℕ
next_position end [] = end
next_position end (entry ∷ entries) = entry.position

module _ (lib : Library) (want_attrs : Bool) (end : ℕ) where
  abbrev pub item_before : Option (List ℕ) → Entry → (next : ℕ) → List (Prev × ℕ) → List (Prev × ℕ)
  item_before none entry next rest = rest
  item_before (some mbs) entry next rest = (named_prev lib want_attrs entry mbs, next) ∷ rest

  -- Each shown entry whose name can be converted, with the position of the next shown one.
  abbrev pub items : List Entry → List (Prev × ℕ)
  items [] = []
  items (entry ∷ entries) =
      item_before (lib.ucstombs entry.name) entry (next_position end entries) (items entries)

  module _ {C : Type 0} (cb : DirentCb C) where
    abbrev carry_off : ℤ × C → (C → Option ℕ × C) → Option ℕ × C
    carry_off (pos zero, ctx) rest = rest ctx
    carry_off (pos (suc n), ctx) rest = (none, ctx)
    carry_off (negsuc n, ctx) rest = (some (suc n), ctx)

    -- The items are handed over in order until the caller has no room or reports an error.
    abbrev pub deliver : List (Prev × ℕ) → C → Option ℕ × C
    deliver [] ctx = (none, ctx)
    deliver ((prev, next) ∷ is) ctx =
        carry_off (cb prev.mft prev.name prev.st next ctx) (deliver is)

    -- What is still to be delivered, with the entry that is kept back.
    abbrev pending : Option Prev → List Entry → List (Prev × ℕ)
    pending none entries = items entries
    pending (some prev) entries = (prev, next_position end entries) ∷ items entries

    abbrev kept : Option Prev → C → RdCtx C
    kept prev ctx = record { cbctx = ctx; stopped = false; err = none; prev = prev }

    abbrev conclude : (Ending × ℕ) × RdCtx C → Option ℕ × C
    conclude ((ending, position), c) =
        flush_last lib want_attrs cb (outcome lib want_attrs cb ending c) c.stopped c.prev position
          c.cbctx

    module _ (errno : ℕ) where
      abbrev run : List Entry → RdCtx C → Option ℕ × C
      run entries c = conclude (walk errno end entries (rd_filldir lib want_attrs cb) c)

      last_one : (r : ℤ × C) → last_result lib want_attrs cb r ≡ carry_off r (λ ctx. (none, ctx))
      last_one (pos zero, ctx) = refl
      last_one (pos (suc n), ctx) = refl
      last_one (negsuc n, ctx) = refl

      module _ (entry : Entry) (entries : List Entry)
          (later : (prev : Option Prev) (ctx : C)
            → run entries (kept prev ctx) ≡ deliver (pending prev (shown entries)) ctx) where
        kept_back :
            (ctx : C)
            → conclude (
                carry_on errno end
                  (keep_back lib want_attrs cb entry (kept none ctx))
                  entry
                  (walk errno end entries (rd_filldir lib want_attrs cb)))
              ≡ deliver (items (entry ∷ shown entries)) ctx
        kept_back ctx = elim (Option-cases (lib.ucstombs entry.name)) [
          | inl unreadable ↦ rw unreadable (later none ctx)
          | inr (mbs, readable) ↦ rw readable (later (some (prev_of lib want_attrs entry mbs)) ctx)
        ]

        passed_on :
            (prev : Prev) (r : ℤ × C) (ctx : C)
            → conclude (
                carry_on errno end
                  (after_cb lib want_attrs cb entry r (kept (some prev) ctx))
                  entry
                  (walk errno end entries (rd_filldir lib want_attrs cb)))
              ≡ carry_off r (deliver (items (entry ∷ shown entries)))
        passed_on prev (pos zero, ctx') ctx = kept_back ctx'
        passed_on prev (pos (suc n), ctx') ctx = refl
        passed_on prev (negsuc n, ctx') ctx = refl

      run-deliver :
          (entries : List Entry) (prev : Option Prev) (ctx : C)
          → run entries (kept prev ctx) ≡ deliver (pending prev (shown entries)) ctx
      unfolding rd_filldir
      run-deliver [] none ctx = refl
      run-deliver [] (some prev) ctx = last_one (hand_over lib want_attrs cb prev end ctx)
      run-deliver (entry ∷ entries) none ctx = elim (Bool-cases (is_reported entry)) [
        | inl visible ↦
            rw (shown-eq entry, visible) (kept_back entry entries (run-deliver entries) ctx)
        | inr hidden ↦ rw (shown-eq entry, hidden) (run-deliver entries none ctx)
      ]
      run-deliver (entry ∷ entries) (some prev) ctx = elim (Bool-cases (is_reported entry)) [
        | inl visible ↦
            rw (shown-eq entry, visible)
              (passed_on entry entries (run-deliver entries) prev
                (hand_over lib want_attrs cb prev entry.position ctx) ctx)
        | inr hidden ↦ rw (shown-eq entry, hidden) (run-deliver entries (some prev) ctx)
      ]

module _ {C : Type 0} (lib : Library) (want_attrs : Bool) (cb : DirentCb C) where
  closing-answer :
      (reported closed : Option ℕ)
      → closing lib want_attrs cb reported closed ≡ answer reported closed
  closing-answer none none = refl
  closing-answer none (some errno) = refl
  closing-answer (some errno) closed = refl

  -- `nfsk_readdir` of a directory hands the entries at the cookie or behind it to the caller in
  -- their order, each with its number, its name up to 255 bytes and the position of the next entry as
  -- its cookie, until the caller has no room or reports an error; DOS aliases, ".", "..", reserved inodes and names that cannot be
  -- converted are left out, and the last entry is not forgotten. It returns the caller's error,
  -- else that of closing the directory, else success; being full is no error.
  pub readdir-deliver :
      (dir cookie errno end : ℕ) (entries : List Entry) (d : Dir) (ctx : C)
      → lib.open_dir dir ≡ some d
      → d.is_directory ≡ true
      → Reads lib dir entries errno end
      → let (result, ctx') =
          deliver lib want_attrs end cb
            (items lib want_attrs end (shown (entries_from cookie entries)))
            ctx in
        (position : ℕ) × (readdir lib want_attrs cb true dir cookie ctx
          ≡ ((answer result d.close_errno, position), ctx'))
  unfolding readdir
  readdir-deliver dir cookie errno end entries d ctx opened directory reads =
      let c = kept lib want_attrs end cb none ctx in
      let from = entries_from cookie entries in
      let position = (walk errno end from (rd_filldir lib want_attrs cb) c).0.1 in
      let delivered =
        deliver lib want_attrs end cb
          (items lib want_attrs end (shown (entries_from cookie entries))) ctx in
      (
        position,
        rw (opened, directory, reads (RdCtx C) cookie (rd_filldir lib want_attrs cb) c)
            (ap (λ r. ((closing lib want_attrs cb r.0 d.close_errno, position), r.1))
                (run-deliver lib want_attrs end cb errno from none ctx)
              ∙ ap (λ a. ((a, position), delivered.1)) (closing-answer delivered.0 d.close_errno)),
      )
