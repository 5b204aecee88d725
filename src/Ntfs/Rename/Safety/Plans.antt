-- ===== src/Ntfs/Rename/Safety/Plans.antt =====
-- What a rename finds out before it changes anything: the number that the old name stands for.
use usbrw.Base.{
  ℕ, arith, ◌≡◌, refl, ap, ◌∙◌, Bool, true, false, ◌||◌, Option, some, ◌==◌, ltb, leb, Bool-cases,
  inl, inr, ==→eq,
}
use usbrw.Bridge.{eperm, enoent}
use usbrw.Ext.Engine.{Name}
use usbrw.Ext.Reply.{done, return}
use usbrw.Ntfs.Call.{Inodes, iget, lookup_mft, lookup_named, find, unicode, uni}
use usbrw.Ntfs.Call.Holds.{
  Holds, bind-Holds, unless-Holds, succeed_or-Holds, obtained-Holds, after_close-Holds,
}
use usbrw.Ntfs.Data.{Opening, opened, cannot}
use usbrw.Ntfs.Rename.{Engine, Plan, to_free_name, to_itself, over, plan, source, against}
use usbrw.Ntfs.Rename.Safety.{Names, lookup_kept}

module _ {S : Type 0} {e : Engine S} {names : S → ℕ → Name → Option ℕ} (law : Names e names)
    (table : ℕ → Name → Option ℕ) where
  abbrev i : Inodes S
  i = e.inodes

  -- No name has changed.
  abbrev Same : S → Type 0
  Same s = names s ≡ table

  -- What was found under a name is there.
  abbrev Found : (dir : ℕ) (name : Name) → Opening ℕ → S → Type 0
  Found dir name found s =
      Same s × ((n : ℕ) → found ≡ opened n → table dir (uni e.inodes name) ≡ some n)

  named_right :
      (dir : ℕ) (uname : Opening Name) (s : S) (n : ℕ)
      → Same s
      → (lookup_named i dir uname s).0 ≡ opened n
      → table dir (unicode uname) ≡ some n
  named_right dir (opened u) s n same found = rw (← same) (law.lookup_found dir u s n found)
  named_right dir (cannot _) s n same found = ground arith

  lookup_right :
      (dir : ℕ) (name : Name) (s : S) (n : ℕ)
      → Same s
      → (lookup_mft i dir name s).0 ≡ opened n
      → table dir (uni e.inodes name) ≡ some n
  lookup_right dir name s n same found = named_right dir (i.mbstoucs name) s n same found

  find-Holds :
      (dir : ℕ) (name : Name) (s : S) → Same s → Holds (Found dir name) Same (find i dir name s)
  find-Holds dir name s same =
      bind-Holds Same (λ _ s. Same s) (Found dir name) (iget i dir s) _
        (obtained-Holds Same (λ _ s. Same s) (i.open_inode dir s) (law.open_inode dir s ∙ same)
          (λ _ _. law.open_inode dir s ∙ same))
        λ info s same.
          let there : Found dir name (lookup_mft i dir name s).0 (lookup_mft i dir name s).1 =
            (lookup_kept law (λ t. t) dir name s ∙ same, λ n. lookup_right dir name s n same) in
          after_close-Holds Same (Found dir name) (i.close_inode dir)
            (done (lookup_mft i dir name s).0, (lookup_mft i dir name s).1)
            (λ s same. law.close_inode dir s ∙ same)
            (λ found s h. (law.close_inode dir s ∙ h.0, (law.close_inode dir s ∙ h.0, h.1))) there

  module _ (new_dir : ℕ) (new : Name) (ino : ℕ) where
    -- What the plan says of the numbers.
    abbrev pub Planned : Plan → S → Type 0
    Planned (to_free_name n) s = Same s × (n ≡ ino)
    Planned to_itself s = Same s × (table new_dir (uni e.inodes new) ≡ some ino)
    Planned (over n xino) s = Same s × (n ≡ ino)

    module _ (old_dir : ℕ) (old : Name) (named : table old_dir (uni e.inodes old) ≡ some ino) where
      source-Holds :
          (found : Opening ℕ) (s : S)
          → Found old_dir old found s
          → Holds (λ n s. Same s × (n ≡ ino)) Same (source e found s)
      source-Holds (cannot _) s h = h.0
      source-Holds (opened n) s h =
          unless-Holds Same (λ n s. Same s × (n ≡ ino)) (leb n 1) enoent _ s h.0
            (unless-Holds Same (λ n s. Same s × (n ≡ ino)) (ltb n i.first_user) eperm (return n) s
              h.0 (h.0, cc (named, h.1 n refl)))

      against-Holds :
          (target : Opening ℕ) (s : S)
          → Found new_dir new target s
          → Holds Planned Same (against e ino target s)
      against-Holds (cannot _) s h = (h.0, refl)
      against-Holds (opened x) s h = elim (Bool-cases (x == ino)) [
        | inl same ↦ rw same (h.0, h.1 x refl ∙ ap some (==→eq x ino same))
        | inr other ↦ rw other (
            bind-Holds Same (λ _ s. Same s) Planned (iget i x s) _
              (obtained-Holds Same (λ _ s. Same s) (i.open_inode x s) (law.open_inode x s ∙ h.0)
                (λ _ _. law.open_inode x s ∙ h.0))
              λ _ s same.
                let s' = (e.check_empty_dir x s).1 in
                let kept : Same (i.close_inode x s').1 =
                  law.close_inode x s' ∙ law.check_empty_dir x s ∙ same in
                succeed_or-Holds Same Planned (over ino x) _ kept (λ _. (kept, refl)))
      ]

      pub plan-Holds :
          (usable : Bool) (s : S)
          → Same s
          → Holds Planned Same (plan e usable old_dir old new_dir new s)
      unfolding plan
      plan-Holds false s same = same
      plan-Holds true s same =
          unless-Holds Same Planned (old_dir == i.file_extend || new_dir == i.file_extend) eperm _ s
            same
            (bind-Holds Same (Found old_dir old) Planned (find i old_dir old s) _
              (find-Holds old_dir old s same)
              λ found s h.
                bind-Holds Same (λ n s. Same s × (n ≡ ino)) Planned (source e found s) _
                  (source-Holds found s h)
                  λ n s h. rw h.1 (
                    bind-Holds Same (Found new_dir new) Planned (find i new_dir new s) _
                      (find-Holds new_dir new s h.0) against-Holds))
