-- ===== src/Ntfs/Attrs/Change/Applied.antt =====
-- What `nfsk_setattr` changes, whichever calls of the library fail.
use usbrw.Base.{
  ℕ, zero, suc, ◌+◌, ◌-◌, ◌≡◌, refl, ap, ◌∙◌, Bool, true, false, not, ◌&&◌, ◌||◌, ◌⊎◌, inl, inr,
  arith, ltb, leb, ◌==◌, Bool-cases,
}
use usbrw.Base.Int.{ℤ, pos, negsuc}
use usbrw.Bridge.{Stat, eperm, enoent, eopnotsupp}
use usbrw.Ntfs.Attrs.{Engine, DataAttr, has, uf_hidden, with_hidden}
use usbrw.Ntfs.Attrs.Change.{
  some_written, open_attr, resize_attr, archive_if, note_size, resize, resize_if, only_if, put_if,
  put_times, put_flags, setattr,
}
use usbrw.Ntfs.Attrs.Change.Laws.{View, max, Attributes, Others, Sets, at_mtime, at_atime, at_btime}
use usbrw.Ntfs.Attrs.Change.Stages.{
  pick, Chosen, Stage, has-with_hidden, untouched, shortened, lengthened, with_mtime, with_atime,
  with_btime, with_flags, no_times,
}
use usbrw.Ext.Reply.{Reply}
use usbrw.Ntfs.Call.{Info, Inodes}
use usbrw.Ntfs.Call.Holds.{
  Holds, bind-Holds, unless-Holds, succeed_or-Holds, obtained-Holds, afterwards-Holds,
  with_inode-Holds,
}

module _ {S : Type 0} {e : Engine S} {v : S → ℕ → View} (law : Attributes e v) (mft : ℕ) (st : Stat)
    (t0 : ℕ → View) where
  abbrev i : Inodes S
  i = e.inodes

  abbrev o : View
  o = t0 mft

  abbrev Kept : S → Type 0
  Kept s = Others mft t0 (v s)

  abbrev At : (size mtime atime btime flags : Bool) → Unit {0} → S → Type 0
  At size mtime atime btime flags _ s =
      Kept s × Stage e.ntfs_time law.now st o size mtime atime btime flags (v s mft)

  further : (s s' : S) → Kept s → Others mft (v s) (v s') → Kept s'
  further s s' h only m other = only m other ∙ h m other

  -- The size after the attribute is cut or extended.
  abbrev Sized : Bool → S → Type 0
  Sized on s =
      (on ≡ true)
      × Kept s
      × ((v s mft ≡ record o { size = st.size })
          ⊎ ((o.is_compressed ≡ true)
              × (ltb 0 st.size ≡ true)
              × (v s mft ≡ record o { size = max o.size (st.size - 1 + 1) })))

  some_written-Holds :
      (Q : Bool → S → Type 0) (run : (ℤ × ℕ) × S)
      → Kept run.1
      → (run.0.1 ≡ 0 → (k : ℕ) × (run.0.0 ≡ pos (suc k)))
      → ((k : ℕ) → run.0.0 ≡ pos (suc k) → Q true run.1)
      → Holds Q Kept (some_written e mft run)
  some_written-Holds Q ((pos zero, zero), s) kept told h =
      let (k, count) = told refl in ground arith
  some_written-Holds Q ((pos zero, suc n), s) kept told h = kept
  some_written-Holds Q ((negsuc n, zero), s) kept told h =
      let (k, count) = told refl in ground arith
  some_written-Holds Q ((negsuc n, suc m), s) kept told h = kept
  some_written-Holds Q ((pos (suc k), errno), s) kept told h = h k refl

  resize_attr-Holds :
      (attr : DataAttr) (s : S)
      → v s ≡ t0
      → attr.is_compressed ≡ o.is_compressed
      → Holds Sized Kept (resize_attr e mft attr st.size s)
  resize_attr-Holds attr s start same =
      elim (Bool-cases (attr.is_compressed && ltb attr.initialized_size st.size)) [
        | inl grows ↦
            rw grows
              let kept : Kept (e.put_zero mft (st.size - 1) s).1 =
                  further s _ (rw start λ m h. refl) (law.put_zero_others mft (st.size - 1) s) in
                some_written-Holds Sized (e.put_zero mft (st.size - 1) s) kept
                  (law.put_zero_errno mft (st.size - 1) s)
                  λ k count. (
                    refl,
                    kept,
                    inr (
                      ground arith,
                      ground arith,
                      rw (← start) (law.put_zero_done mft (st.size - 1) s k count),
                    ),
                  )
        | inr cut ↦
            rw cut
              let kept : Kept (e.truncate mft st.size s).1 =
                  further s _ (rw start λ m h. refl) (law.truncate_others mft st.size s) in
                succeed_or-Holds Kept Sized true (e.truncate mft st.size s) kept λ success.
                  (refl, kept, inl (rw (← start) (law.truncate_done mft st.size s success)))
      ]

  archive_if-same : (b : Bool) (s : S) → v (archive_if e mft b s) ≡ v s
  archive_if-same true s = law.set_archive mft s
  archive_if-same false s = refl

  sized-Stage :
      (w : View)
      → (w ≡ record o { size = st.size })
        ⊎ ((o.is_compressed ≡ true)
            × (ltb 0 st.size ≡ true)
            × (w ≡ record o { size = max o.size (st.size - 1 + 1) }))
      → Stage e.ntfs_time law.now st o true false false false false (record w { mtime = law.now })
  sized-Stage w (inl cut) = rw cut (shortened e.ntfs_time law.now st o)
  sized-Stage w (inr (compressed, some_size, grown)) =
      rw grown (lengthened e.ntfs_time law.now st o some_size compressed)

  -- A success, after which the operation goes on.
  abbrev Goes : Bool → S → Type 0
  Goes on s = (on ≡ true) × At true false false false false tt s

  abbrev On : Reply Bool × S → Type 0
  On run = Holds Goes Kept run

  note_size-Holds : (old : ℕ) (s : S) → Sized true s → On (note_size e mft old st.size true s)
  note_size-Holds old s h =
      let s' = archive_if e mft (not (old == st.size)) s in
      let archived : v s' ≡ v s = archive_if-same (not (old == st.size)) s in
      (
        refl,
        (
          further s _ h.1
              (λ m other. (law.update_mctime mft s').0 m other ∙ ap (λ t. t m) archived),
          rw ((law.update_mctime mft s').1, archived) (sized-Stage (v s mft) h.2),
        ),
      )

  resize-Holds : (info : Info) (s : S) → v s ≡ t0 → Holds Goes Kept (resize e mft info st.size s)
  unfolding resize
  resize-Holds info s start =
      let kept : Kept s = rw start λ m h. refl in
      unless-Holds Kept Goes (ltb mft i.first_user) eperm _ s kept (
        unless-Holds Kept Goes info.is_reparse eopnotsupp _ s kept (
          bind-Holds Kept (λ attr s. (v s ≡ t0) × (attr.is_compressed ≡ o.is_compressed)) Goes
            (open_attr e mft s) _
            (obtained-Holds Kept (λ attr s. (v s ≡ t0) × (attr.is_compressed ≡ o.is_compressed))
              (e.open_data mft s) (rw (law.open_data mft s) kept)
              λ attr found. (
                law.open_data mft s ∙ start,
                law.opened_data mft s attr found ∙ ap (λ t. (t mft).is_compressed) start,
              ))
            λ attr s h.
              bind-Holds Kept Sized Goes _ (note_size e mft attr.data_size st.size)
                (afterwards-Holds Kept Sized (e.close_data mft) (resize_attr e mft attr st.size s)
                  (λ s h. rw (law.close_data mft s) h) (λ _ s h. rw (law.close_data mft s) h)
                  (resize_attr-Holds attr s h.0 h.1))
                λ on s h. rw h.0 (note_size-Holds attr.data_size s (refl, h.1, h.2))))

  -- A field that is put if its bit is set.
  put_others :
      (b : Bool) (call : ℕ → S → S) (change : View → View) (sets : Sets e v call change) (s : S)
      → Kept s
      → Kept (put_if e mft b (call mft) s)
  put_others true call change sets s kept = further s _ kept (sets mft s).0
  put_others false call change sets s kept = kept

  put_view :
      (b : Bool) (call : ℕ → S → S) (change : View → View) (sets : Sets e v call change) (s : S)
      → v (put_if e mft b (call mft) s) mft ≡ pick b (change (v s mft)) (v s mft)
  put_view true call change sets s = (sets mft s).1
  put_view false call change sets s = refl

  module _ (size : Bool) (which : ℕ) where
    abbrev b16 : Bool
    b16 = has 16 which

    abbrev b64 : Bool
    b64 = has 64 which

    abbrev b128 : Bool
    b128 = has 128 which

    put_times-Holds :
        (s : S)
        → At size false false false false tt s
        → At size b16 b64 b128 false tt (put_times e mft st which s).1
    unfolding put_times
    put_times-Holds s h =
        let T = e.ntfs_time in
        let s1 = put_if e mft b16 (e.set_data_change_time mft (T st.mtime)) s in
        let s2 = put_if e mft b64 (e.set_access_time mft (T st.atime)) s1 in
        let set_m = law.set_data_change_time (T st.mtime) in
        let set_a = law.set_access_time (T st.atime) in
        let set_b = law.set_creation_time (T st.btime) in
        rw (law.update_ctime mft (put_if e mft b128 (e.set_creation_time mft (T st.btime)) s2)) (
          put_others b128 (λ n. e.set_creation_time n (T st.btime)) (at_btime (T st.btime)) set_b s2
              (put_others b64 (λ n. e.set_access_time n (T st.atime)) (at_atime (T st.atime)) set_a
                s1
                (put_others b16 (λ n. e.set_data_change_time n (T st.mtime)) (at_mtime (T st.mtime))
                  set_m s h.0)),
          with_btime T law.now st o size (v s2 mft) b16 b64 b128
              (with_atime T law.now st o size (v s1 mft) b16 b64
                (with_mtime T law.now st o size (v s mft) b16 h.1 _ (
                  put_view b16 (λ n. e.set_data_change_time n (T st.mtime)) (at_mtime (T st.mtime))
                    set_m s))
                _
                (put_view b64 (λ n. e.set_access_time n (T st.atime)) (at_atime (T st.atime)) set_a
                  s1))
              _
              (put_view b128 (λ n. e.set_creation_time n (T st.btime)) (at_btime (T st.btime)) set_b
                s2),
        )

    put_flags-Holds :
        (s : S)
        → At size b16 b64 b128 false tt s
        → Holds (At size b16 b64 b128 true) Kept (put_flags e mft st s)
    unfolding put_flags
    put_flags-Holds s h =
        let a = with_hidden (has uf_hidden st.flags) (e.flags mft s) in
        let kept : Kept (e.set_ntfs_attrib mft a s).1 =
          further s _ h.0 (law.attrib_others mft a s) in
        succeed_or-Holds Kept (At size b16 b64 b128 true) tt (e.set_ntfs_attrib mft a s) kept
          λ success. (
            kept,
            with_flags e.ntfs_time law.now st o size (v s mft) b16 b64 b128 h.1 _ (
                law.attrib_done mft a s success
                ∙ ap (λ b. record (v s mft) { is_hidden = b })
                    (has-with_hidden (has uf_hidden st.flags) (e.flags mft s))),
          )

    put_times_if-Holds :
        (s : S)
        → At size false false false false tt s
        → Holds
            (At size b16 b64 b128 false)
            Kept
            (only_if e mft (b16 || b64 || b128) (put_times e mft st which) s)
    unfolding put_times
    put_times_if-Holds s h = elim (Bool-cases (b16 || b64 || b128)) [
      | inl some_time ↦ rw some_time (put_times-Holds s h)
      | inr no_time ↦ rw no_time (h.0, no_times no_time h.1)
    ]

    put_flags_if-Holds :
        (b : Bool) (s : S)
        → At size b16 b64 b128 false tt s
        → Holds (At size b16 b64 b128 b) Kept (only_if e mft b (put_flags e mft st) s)
    put_flags_if-Holds true s h = put_flags-Holds s h
    put_flags_if-Holds false s h = h

  resize_if-Holds :
      (b : Bool) (info : Info) (s : S)
      → v s ≡ t0
      → Holds
          (λ on s. (on ≡ true) × At b false false false false tt s)
          Kept
          (resize_if e mft b info st.size s)
  resize_if-Holds true info s start = resize-Holds info s start
  resize_if-Holds false info s start =
      (refl, (rw start λ m h. refl, rw start (untouched e.ntfs_time law.now st o)))

module _ {S : Type 0} {e : Engine S} {v : S → ℕ → View} (law : Attributes e v) (mft : ℕ) (st : Stat)
    (which : ℕ) (s : S) where
  abbrev Wanted : Unit {0} → (ℕ → View) → Type 0
  Wanted _ t =
      Chosen (has 8 which) (has 16 which) (has 64 which) (has 128 which) (has 32 which) e.ntfs_time
        law.now st (v s mft) (t mft)

  abbrev Same : S → Type 0
  Same s' = Others mft (v s) (v s')

  abbrev After : (mtime atime btime flags : Bool) → Unit {0} → S → Type 0
  After = At law mft st (v s) (has 8 which)

  -- `nfsk_setattr` returns, and changes at most the file that it is given, whichever calls of the
  -- library fail. After a success the file has the size, the times and the mark "hidden" that the
  -- bits of `which` choose, and has kept the others: where a size is chosen and the time of the last
  -- change is not, that time is the present; and a file that is compressed has the size only if it
  -- did not have to shrink. A write of a byte that takes nothing sets errno.
  pub setattr-Chosen :
      (usable : Bool)
      → Holds
          (λ _ s'. Others mft (v s) (v s') × Wanted tt (v s'))
          (λ s'. Others mft (v s) (v s'))
          (setattr e mft usable st which s)
  unfolding setattr
  setattr-Chosen false = λ m h. refl
  setattr-Chosen true =
      unless-Holds Same (λ a w. Same w × Wanted a (v w)) (leb mft 1) enoent _ s (λ m h. refl)
        (with_inode-Holds e.inodes v law.open_inode law.close_inode Wanted (Others mft (v s)) mft _
          s (λ m h. refl)
          λ info w start.
            bind-Holds Same (λ on w. (on ≡ true) × After false false false false tt w)
              (λ a w. Same w × Wanted a (v w)) _ _
              (resize_if-Holds law mft st (v s) (has 8 which) info w start)
              λ on w h. rw h.0 (
                bind-Holds Same (After (has 16 which) (has 64 which) (has 128 which) false)
                  (λ a w. Same w × Wanted a (v w)) _ _
                  (put_times_if-Holds law mft st (v s) (has 8 which) which w h.1)
                  λ _ w h.
                    put_flags_if-Holds law mft st (v s) (has 8 which) which (has 32 which) w h))
