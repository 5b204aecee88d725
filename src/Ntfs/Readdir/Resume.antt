-- ===== src/Ntfs/Readdir/Resume.antt =====
-- An enumeration in two calls: the second goes on at the cookie of the last entry that the caller
-- took. The entry that was kept back and refused comes again.
use usbrw.Base.{
  ℕ, zero, suc, ◌+◌, ◌<◌, ◌≤◌, ◌≡◌, refl, sym, ap, ◌∙◌, Bool, true, false, none, some, List, [],
  ◌∷◌, ◌++◌, arith, inl, inr, ltb, Bool-cases, Option-cases, take, drop, length, length-drop,
  take-append-drop, take_beyond,
}
use mathlib.Core.List.{append-nil, append_assoc}
use usbrw.Base.Int.{ℤ, pos}
use usbrw.Ext.Dir.{DirentCb}
use usbrw.Ntfs.Readdir.{Library, Entry, Dir, Prev, readdir}
use usbrw.Ntfs.Readdir.Delivery.{
  Reads, entries_from, is_reported, shown, next_position, items, deliver, readdir-deliver,
}

-- A caller with room for so many more entries, and the cookie of the last that it took.
pub record Packer : Type 0 where
  pub room : ℕ
  pub got : List (Prev × ℕ)
  pub last : ℕ

abbrev take_item : ℕ → Prev × ℕ → Packer → ℤ × Packer
take_item zero item p = (pos 1, p)
take_item (suc room) item p =
    (pos 0, record { room = room; got = p.got ++ (item ∷ []); last = item.1 })

abbrev pub pack : DirentCb Packer
pack number name st next p =
    take_item p.room (record { mft = number; name = name; st = st }, next) p

-- Entries stand behind one another, at `low` or behind it, and before the end.
abbrev pub Above : (low end : ℕ) → List Entry → Type 0
Above low end [] = low ≤ end
Above low end (entry ∷ entries) = (low ≤ entry.position) × Above (suc entry.position) end entries

Above-weaken :
    (low low' end : ℕ) (entries : List Entry)
    → low' ≤ low
    → Above low end entries
    → Above low' end entries
Above-weaken low low' end [] h above = omega arith
Above-weaken low low' end (entry ∷ entries) h (here, above) = (omega arith, above)

shown-Above :
    (low end : ℕ) (entries : List Entry) → Above low end entries → Above low end (shown entries)
shown-Above low end [] above = above
shown-Above low end (entry ∷ entries) (here, above) = elim (Bool-cases (is_reported entry)) [
  | inl visible ↦ rw visible (here, shown-Above (suc entry.position) end entries above)
  | inr hidden ↦ rw hidden (
      Above-weaken (suc entry.position) low end (shown entries) (omega arith)
        (shown-Above (suc entry.position) end entries above))
]

shown-entries_from :
    (c : ℕ) (entries : List Entry) → shown (entries_from c entries) ≡ entries_from c (shown entries)
shown-entries_from c [] = refl
shown-entries_from c (entry ∷ entries) =
    let rest = shown-entries_from c entries in
    elim (Bool-cases (ltb entry.position c)) [
      | inl before ↦ elim (Bool-cases (is_reported entry)) [
        | inl visible ↦ rw (before, visible) (rw before rest)
        | inr hidden ↦ rw (before, hidden) rest
      ]
      | inr here ↦ elim (Bool-cases (is_reported entry)) [
        | inl visible ↦ rw (here, visible) (rw here (ap (◌∷◌ entry) rest))
        | inr hidden ↦ rw (here, hidden) rest
      ]
    ]

entries_from_low :
    (c low end : ℕ) (entries : List Entry)
    → Above low end entries
    → c ≤ low
    → entries_from c entries ≡ entries
entries_from_low c low end [] above h = refl
entries_from_low c low end (entry ∷ entries) (here, above) h =
    let late : ltb entry.position c ≡ false = ground arith in
    rw late
      (ap (◌∷◌ entry) (entries_from_low c (suc entry.position) end entries above (omega arith)))

next_position_low :
    (low end : ℕ) (entries : List Entry) → Above low end entries → low ≤ next_position end entries
next_position_low low end [] above = above
next_position_low low end (entry ∷ entries) (here, above) = here

-- Nothing stands before the next entry.
entries_from_next :
    (low end : ℕ) (entries : List Entry)
    → Above low end entries
    → entries_from (next_position end entries) entries ≡ entries
entries_from_next low end [] above = refl
entries_from_next low end (entry ∷ entries) (here, above) =
    entries_from_low entry.position entry.position end (entry ∷ entries) (omega arith, above)
      (omega arith)

-- The cookie of the first item.
abbrev head_next : List (Prev × ℕ) → ℕ
head_next [] = 0
head_next (i ∷ is) = i.1

module _ (lib : Library) (want_attrs : Bool) (end : ℕ) where
  next_beyond :
      (low c : ℕ) (entries : List Entry) (i : Prev × ℕ) (is : List (Prev × ℕ))
      → Above low end entries
      → items lib want_attrs end (entries_from c entries) ≡ i ∷ is
      → low < i.1
  next_beyond low c [] i is above h = ground arith
  next_beyond low c (entry ∷ entries) i is (here, above) h =
      elim (Bool-cases (ltb entry.position c)) [
        | inl before ↦
            omega (arith, next_beyond (suc entry.position) c entries i is above (rw before at h))
        | inr late ↦ elim (Option-cases (lib.ucstombs entry.name)) [
          | inl unreadable ↦ omega (
            arith,
            next_beyond (suc entry.position) c entries i is above (rw (late, unreadable) at h),
          )
          | inr (mbs, readable) ↦
              let rest = entries_from_low c (suc entry.position) end entries above (ground arith) in
              omega (
                arith,
                ap head_next (rw (late, readable, rest) at h),
                next_position_low (suc entry.position) end entries above,
              )
        ]
      ]

  -- The cookie of the first item is where the others begin.
  items-next :
      (low c : ℕ) (entries : List Entry) (i : Prev × ℕ) (is : List (Prev × ℕ))
      → Above low end entries
      → items lib want_attrs end (entries_from c entries) ≡ i ∷ is
      → items lib want_attrs end (entries_from i.1 entries) ≡ is
  items-next low c [] i is above h = ground arith
  items-next low c (entry ∷ entries) i is (here, above) h =
      let old : ltb entry.position i.1 ≡ true =
        ground
          (arith, next_beyond entry.position c (entry ∷ entries) i is (omega arith, above) h) in
      rw old (elim (Bool-cases (ltb entry.position c)) [
        | inl before ↦ items-next (suc entry.position) c entries i is above (rw before at h)
        | inr late ↦ elim (Option-cases (lib.ucstombs entry.name)) [
          | inl unreadable ↦
              items-next (suc entry.position) c entries i is above (rw (late, unreadable) at h)
          | inr (mbs, readable) ↦
              let rest = entries_from_low c (suc entry.position) end entries above (ground arith) in
              let split = rw (late, readable, rest) at h in
              ap (λ n. items lib want_attrs end (entries_from n entries)) (sym (ap head_next split))
              ∙ ap (items lib want_attrs end)
                  (entries_from_next (suc entry.position) end entries above)
              ∙ ap (drop 1) split
        ]
      ])

  -- What a caller with room for so many items takes, and where the others begin.
  deliver-pack :
      (low : ℕ) (entries : List Entry) (is : List (Prev × ℕ)) (room : ℕ) (got : List (Prev × ℕ))
      (last : ℕ)
      → Above low end entries
      → items lib want_attrs end (entries_from last entries) ≡ is
      → let (result, after) =
          deliver lib want_attrs end pack is (record { room = room; got = got; last = last }) in
        (result ≡ none)
        × (after.got ≡ got ++ take room is)
        × (items lib want_attrs end (entries_from after.last entries) ≡ drop room is)
  deliver-pack low entries [] zero got last above h = (refl, sym (append-nil got), h)
  deliver-pack low entries [] (suc room) got last above h = (refl, sym (append-nil got), h)
  deliver-pack low entries (i ∷ is) zero got last above h = (refl, sym (append-nil got), h)
  deliver-pack low entries (i ∷ is) (suc room) got last above h =
      let (fine, taken, left) =
        deliver-pack low entries is room (got ++ (i ∷ [])) i.1 above
          (items-next low last entries i is above h) in
      (fine, taken ∙ append_assoc got (i ∷ []) (take room is), left)

-- A directory that is read with `nfsk_readdir` in two calls, by a caller with room for some entries
-- in each, the second from the cookie of the last entry taken in the first: if there is room for
-- all together, each entry that is reported at the first cookie or behind it is delivered once and
-- in order, with its next cookie; no entry is lost or comes twice. The directory's entries stand
-- behind one another, and before its end.
pub readdir_resumes :
    (lib : Library) (want_attrs : Bool) (dir cookie errno low end : ℕ) (entries : List Entry)
    (d : Dir) (k j : ℕ)
    → lib.open_dir dir ≡ some d
    → d.is_directory ≡ true
    → Reads lib dir entries errno end
    → Above low end entries
    → let all = items lib want_attrs end (shown (entries_from cookie entries)) in
      length all ≤ k + j
      → let (_, p) =
          readdir lib want_attrs pack true dir cookie
            (record { room = k; got = []; last = cookie }) in
        let (_, p') =
          readdir lib want_attrs pack true dir p.last
            (record { room = j; got = p.got; last = p.last }) in
        p'.got ≡ all
readdir_resumes lib want_attrs dir cookie errno low end entries d k j opened directory reads above
      enough =
    let ys = shown entries in
    let ascending = shown-Above low end entries above in
    let all = items lib want_attrs end (shown (entries_from cookie entries)) in
    let start : Packer = record { room = k; got = []; last = cookie } in
    let p = (deliver lib want_attrs end pack all start).1 in
    let again : Packer = record { room = j; got = p.got; last = p.last } in
    let same = λ (c : ℕ). ap (items lib want_attrs end) (shown-entries_from c entries) in
    let (_, taken, left) =
      deliver-pack lib want_attrs end low ys all k [] cookie ascending (sym (same cookie)) in
    let (_, first) =
      readdir-deliver lib want_attrs pack dir cookie errno end entries d start opened directory
        reads in
    let (_, second) =
      readdir-deliver lib want_attrs pack dir p.last errno end entries d again opened directory
        reads in
    let (_, taken', _) =
      deliver-pack lib want_attrs end low ys (drop k all) j p.got p.last ascending left in
    rw (first, second, same p.last ∙ left)
      (taken'
        ∙ ap (λ l. l ++ take j (drop k all)) taken
        ∙ ap (λ l. take k all ++ l) (take_beyond j (drop k all) (omega (arith, length-drop k all)))
        ∙ take-append-drop k all)
