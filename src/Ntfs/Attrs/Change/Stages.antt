-- ===== src/Ntfs/Attrs/Change/Stages.antt =====
-- The attributes that `nfsk_setattr` is to leave, step by step.
use usbrw.Base.{ℕ, ◌+◌, ◌-◌, ◌≡◌, ◌≤◌, refl, Bool, true, false, ◌||◌, ◌⊎◌, inl, inr, arith, ltb}
use usbrw.Bridge.{Stat}
use usbrw.Ntfs.Attrs.{has, uf_hidden, with_hidden}
use usbrw.Ntfs.Attrs.Change.Laws.{View, max}

abbrev pub pick : {A : Type 0} → Bool → A → A → A
pick true x y = x
pick false x y = y

-- A compressed file may be asked to shrink in vain.
abbrev pub Fits : View → ℕ → Type 0
Fits o n = (o.is_compressed ≡ false) ⊎ (o.size ≤ n)

-- The view `w` has what the bits choose of `st`, and all else of `o`; a new size changes the time
-- of the last change, too.
pub record Chosen (size mtime atime btime flags : Bool) (time : ℕ → ℕ) (now : ℕ) (st : Stat)
    (o w : View) : Type 0 where
  pub resized : size ≡ true → Fits o st.size → w.size ≡ st.size
  pub same_size : size ≡ false → w.size ≡ o.size
  pub new_mtime : mtime ≡ true → w.mtime ≡ time st.mtime
  pub same_mtime : mtime ≡ false → size ≡ false → w.mtime ≡ o.mtime
  pub sized_mtime : mtime ≡ false → size ≡ true → w.mtime ≡ now
  pub picked_atime : w.atime ≡ pick atime (time st.atime) o.atime
  pub picked_btime : w.btime ≡ pick btime (time st.btime) o.btime
  pub picked_hidden : w.is_hidden ≡ pick flags (has uf_hidden st.flags) o.is_hidden

pub has-with_hidden : (b : Bool) (a : ℕ) → has 2 (with_hidden b a) ≡ b
unfolding with_hidden
has-with_hidden true a = ground arith
has-with_hidden false a = ground arith

module _ (time : ℕ → ℕ) (now : ℕ) (st : Stat) (o : View) where
  abbrev pub Stage : (size mtime atime btime flags : Bool) → View → Type 0
  Stage size mtime atime btime flags w = Chosen size mtime atime btime flags time now st o w

  pub untouched : Stage false false false false false o
  untouched = ground arith

  pub shortened : Stage true false false false false (record o { size = st.size; mtime = now })
  shortened = ground arith

  pub lengthened :
      ltb 0 st.size ≡ true
      → o.is_compressed ≡ true
      → Stage true false false false false
          (record o { size = max o.size (st.size - 1 + 1); mtime = now })
  lengthened some_size compressed = record {
    resized = λ _ fits. elim fits [ inl plain ↦ ground arith | inr more ↦ ground arith ];
    same_size = λ b. ground arith;
    new_mtime = λ b. ground arith;
    same_mtime = λ a b. ground arith;
    sized_mtime = λ a b. refl;
    picked_atime = refl;
    picked_btime = refl;
    picked_hidden = refl;
  }

  module _ (size : Bool) (w : View) where
    pub with_mtime :
        (b : Bool) (start : Stage size false false false false w) (w' : View)
        → w' ≡ pick b (record w { mtime = time st.mtime }) w
        → Stage size b false false false w'
    with_mtime true start w' h = rw h (ground arith)
    with_mtime false start w' h = rw h start

    pub with_atime :
        (m b : Bool) (start : Stage size m false false false w) (w' : View)
        → w' ≡ pick b (record w { atime = time st.atime }) w
        → Stage size m b false false w'
    with_atime m true start w' h = rw h (ground arith)
    with_atime m false start w' h = rw h start

    pub with_btime :
        (m a b : Bool) (start : Stage size m a false false w) (w' : View)
        → w' ≡ pick b (record w { btime = time st.btime }) w
        → Stage size m a b false w'
    with_btime m a true start w' h = rw h (ground arith)
    with_btime m a false start w' h = rw h start

    pub with_flags :
        (m a b : Bool) (start : Stage size m a b false w) (w' : View)
        → w' ≡ record w { is_hidden = has uf_hidden st.flags }
        → Stage size m a b true w'
    with_flags m a b start w' h = rw h (ground arith)

pub no_times :
    {size a b c : Bool} {time : ℕ → ℕ} {now : ℕ} {st : Stat} {o w : View}
    → (a || b || c) ≡ false
    → Chosen size false false false false time now st o w
    → Chosen size a b c false time now st o w
no_times {a = true} h start = ground arith
no_times {a = false} {b = true} h start = ground arith
no_times {a = false} {b = false} {c = true} h start = ground arith
no_times {a = false} {b = false} {c = false} h start = start
