-- ===== src/Ext/Dir/Resume.antt =====
-- An enumeration in two calls: the second goes on at the cookie of the last entry that the caller
-- took.
use usbrw.Base.{
  ℕ, zero, suc, ◌+◌, ◌<◌, ◌≤◌, ◌≡◌, refl, sym, ap, ◌∙◌, true, false, List, [], ◌∷◌, ◌++◌, arith,
  inl, inr, ltb, not, Bool-cases, take, drop, length, length-drop, take-append-drop, take_beyond,
}
use mathlib.Core.List.{append-nil, append_assoc}
use usbrw.Base.Int.{ℤ, pos}
use usbrw.Ext.Dir.{DirentCb, readdir}
use usbrw.Ext.Dir.Delivery.{Item, items, is_listed, deliver, Iterates, readdir_lem}
use usbrw.Ext.Engine.{Engine, DirEntry}
use usbrw.Ext.Files.{u32}
use usbrw.Ext.Library.{Library}
use usbrw.Ext.Library.View.{Shelf}

-- A caller with room for so many more items, and the cookie behind the last that it took.
pub record Packer : Type 0 where
  pub room : ℕ
  pub got : List Item
  pub last : ℕ

abbrev take_item : ℕ → Item → Packer → ℤ × Packer
take_item zero item p = (pos 1, p)
take_item (suc room) item p =
    (pos 0, record { room = room; got = p.got ++ (item ∷ []); last = item.next })

abbrev pub pack : DirentCb Packer
pack number name attributes next p =
    take_item p.room (record { number = number; name = name; attributes = attributes; next = next })
      p

-- Entries that follow one another from an offset on.
abbrev pub Packed : ℕ → List DirEntry → Type 0
Packed off [] = Unit {0}
Packed off (entry ∷ entries) =
    (entry.offset ≡ off) × (0 < entry.rec_len) × Packed (off + entry.rec_len) entries

-- The cookie of the first item.
abbrev head_next : List Item → ℕ
head_next [] = 0
head_next (i ∷ is) = i.next

module _ (v : Shelf) where
  -- Before the first entry, all cookies are alike.
  items_start :
      (off c c' : ℕ) (entries : List DirEntry)
      → Packed off entries
      → c ≤ off
      → c' ≤ off
      → items c v entries ≡ items c' v entries
  items_start off c c' [] packed h h' = refl
  items_start off c c' (entry ∷ entries) (at, len, packed) h h' =
      let rest =
        items_start (off + entry.rec_len) c c' entries packed (omega arith) (omega arith) in
      let here : ltb entry.offset c ≡ false = ground arith in
      let here' : ltb entry.offset c' ≡ false = ground arith in rw (here, here', rest) refl

  next_beyond :
      (off c : ℕ) (entries : List DirEntry) (i : Item) (is : List Item)
      → Packed off entries
      → items c v entries ≡ i ∷ is
      → off < i.next
  next_beyond off c [] i is packed h = ground arith
  next_beyond off c (entry ∷ entries) i is (at, len, packed) h =
      elim (Bool-cases (ltb entry.offset c)) [
        | inl before ↦
            omega (arith, next_beyond (off + entry.rec_len) c entries i is packed (rw before at h))
        | inr here ↦ elim (Bool-cases (not (is_listed entry))) [
          | inl hidden ↦ omega (
            arith,
            next_beyond (off + entry.rec_len) c entries i is packed (rw (here, hidden) at h),
          )
          | inr shown ↦ omega (arith, ap head_next (rw (here, shown) at h))
        ]
      ]

  -- The cookie of the first item is where the others begin.
  items-next :
      (off c : ℕ) (entries : List DirEntry) (i : Item) (is : List Item)
      → Packed off entries
      → items c v entries ≡ i ∷ is
      → items i.next v entries ≡ is
  items-next off c [] i is packed h = ground arith
  items-next off c (entry ∷ entries) i is (at, len, packed) h =
      let after = off + entry.rec_len in
      let old : ltb entry.offset i.next ≡ true =
        ground (arith, next_beyond off c (entry ∷ entries) i is (at, len, packed) h) in
      rw old (elim (Bool-cases (ltb entry.offset c)) [
        | inl before ↦ items-next after c entries i is packed (rw before at h)
        | inr here ↦ elim (Bool-cases (not (is_listed entry))) [
          | inl hidden ↦ items-next after c entries i is packed (rw (here, hidden) at h)
          | inr shown ↦
              let split = rw (here, shown) at h in
              items_start after i.next c entries packed (omega (arith, ap head_next split))
                (ground arith)
              ∙ ap (drop 1) split
        ]
      ])

  -- What a caller with room for so many items takes, and where the others begin.
  deliver-pack :
      (off : ℕ) (entries : List DirEntry) (is : List Item) (room : ℕ) (got : List Item) (last : ℕ)
      → Packed off entries
      → items last v entries ≡ is
      → let after = deliver pack is (record { room = room; got = got; last = last }) in
        (after.got ≡ got ++ take room is) × (items after.last v entries ≡ drop room is)
  deliver-pack off entries [] zero got last packed h = (sym (append-nil got), h)
  deliver-pack off entries [] (suc room) got last packed h = (sym (append-nil got), h)
  deliver-pack off entries (i ∷ is) zero got last packed h = (sym (append-nil got), h)
  deliver-pack off entries (i ∷ is) (suc room) got last packed h =
      let (taken, left) =
        deliver-pack off entries is room (got ++ (i ∷ [])) i.next packed
          (items-next off last entries i is packed h) in
      (taken ∙ append_assoc got (i ∷ []) (take room is), left)

-- A directory whose entries are handed over with offsets that follow one another, as those of one
-- block do, and that is read in two calls, by a caller with room for some items in each, the second
-- from the cookie of the last item taken in the first: if there is room for all items together,
-- then each visible entry at the first cookie or behind it is delivered once and in order.
pub resume_lem :
    {S : Type 0} {e : Engine S} {shelf : S → Shelf} (library : Library e shelf) (dir cookie off : ℕ)
    (entries : List DirEntry) (k j : ℕ) (s : S)
    → Iterates e (u32 dir) entries s
    → Packed off entries
    → length (items cookie (shelf s) entries) ≤ k + j
    → let ((r, p), s') =
        readdir e true pack dir cookie (record { room = k; got = []; last = cookie }) s in
      let ((r', p'), s'') =
        readdir e true pack dir p.last (record { room = j; got = p.got; last = p.last }) s' in
      p'.got ≡ items cookie (shelf s) entries
resume_lem {shelf} library dir cookie off entries k j s iterates packed enough =
    let all = items cookie (shelf s) entries in
    let start : Packer = record { room = k; got = []; last = cookie } in
    let p = deliver pack all start in
    let (taken, left) = deliver-pack (shelf s) off entries all k [] cookie packed refl in
    let (_, first) = readdir_lem pack library cookie s dir entries start iterates in
    let again : Packer = record { room = j; got = p.got; last = p.last } in
    let (_, second) = readdir_lem pack library p.last s dir entries again iterates in
    let (taken', _) = deliver-pack (shelf s) off entries (drop k all) j p.got p.last packed left in
    rw (first, second, left)
      (taken'
        ∙ ap (λ l. l ++ take j (drop k all)) taken
        ∙ ap (λ l. take k all ++ l) (take_beyond j (drop k all) (omega (arith, length-drop k all)))
        ∙ take-append-drop k all)
