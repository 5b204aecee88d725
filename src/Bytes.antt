-- ===== src/Bytes.antt =====
-- The bytes of a device as a function of the offset: what a read of a range returns (`slice`),
-- what a write leaves (`overlay`), and the laws that relate them.
use usbrw.Base.{
  ℕ, zero, suc, ◌+◌, ◌-◌, ◌≤◌, ◌<◌, ◌≡◌, refl, sym, ap, ap₂, le_refl, ◌∙◌, fun_ext, ◌≡⟨◌⟩◌, ◌∎,
  List, [], ◌∷◌, ◌++◌, arith, leb, if◌then◌else◌, length, get_or, take, drop, get_or-append_left,
  get_or-append_right, get_or_beyond, length-append, length-take, take-append-take-drop,
  length-drop,
}

abbrev pub Content : Type 0
Content = ℕ → ℕ

-- The `n` bytes from `off` on.
abbrev pub slice : Content → ℕ → ℕ → List ℕ
slice c off zero = []
slice c off (suc n) = c off ∷ slice c (off + 1) n

-- The store after the bytes `bs` are put at `off`.
abbrev pub overlay : Content → ℕ → List ℕ → Content
overlay c off bs x = if leb off x then get_or bs (x - off) (c x) else c x

-- memcpy(tmp + skip, src, length bs).
abbrev pub splice : List ℕ → ℕ → List ℕ → List ℕ
splice tmp skip bs = take skip tmp ++ (bs ++ drop (skip + length bs) tmp)

pub length-slice : (c : Content) (off n : ℕ) → length (slice c off n) ≡ n
length-slice c off zero = refl
length-slice c off (suc n) = ap suc (length-slice c (off + 1) n)

pub slice_at :
    (c : Content) {off off' m n : ℕ} → off ≡ off' → m ≡ n → slice c off m ≡ slice c off' n
slice_at c p q = ap₂ (slice c) p q

pub slice-append :
    (c : Content) (off m n : ℕ) → slice c off m ++ slice c (off + m) n ≡ slice c off (m + n)
slice-append c off zero n = slice_at c (omega arith) (omega arith)
slice-append c off (suc m) n =
    ap (λ (bs : List ℕ). c off ∷ (slice c (off + 1) m ++ bs)) (slice_at c (omega arith) refl)
    ∙ ap (◌∷◌ (c off)) (slice-append c (off + 1) m n)
    ∙ slice_at c {m = suc (m + n)} refl (omega arith)

pub take-slice : (c : Content) (off k n : ℕ) → k ≤ n → take k (slice c off n) ≡ slice c off k
take-slice c off zero n h = refl
take-slice c off (suc k) zero h = elim h [ ]
take-slice c off (suc k) (suc n) h = ap (◌∷◌ (c off)) (take-slice c (off + 1) k n (omega arith))

pub drop-slice :
    (c : Content) (off k n : ℕ) → k ≤ n → drop k (slice c off n) ≡ slice c (off + k) (n - k)
drop-slice c off zero n h = slice_at c (omega arith) (omega arith)
drop-slice c off (suc k) zero h = elim h [ ]
drop-slice c off (suc k) (suc n) h =
    drop-slice c (off + 1) k n (omega arith) ∙ slice_at c (omega arith) (omega arith)

-- The window that memcpy takes out of a block.
pub window-slice :
    (c : Content) (base size skip n : ℕ)
    → skip + n ≤ size
    → take n (drop skip (slice c base size)) ≡ slice c (base + skip) n
window-slice c base size skip n h =
    ap (take n) (drop-slice c base skip size (omega arith))
    ∙ take-slice c (base + skip) n (size - skip) (omega arith)

pub get_or-slice :
    (c : Content) (off n i : ℕ) (d : ℕ) → i < n → get_or (slice c off n) i d ≡ c (off + i)
get_or-slice c off zero i d h = elim h [ ]
get_or-slice c off (suc n) zero d h = ap c (omega arith)
get_or-slice c off (suc n) (suc i) d h =
    get_or-slice c (off + 1) n i d (omega arith) ∙ ap c (omega arith)

-- Ranges on which two stores agree read alike.
pub slice_congr :
    (c d : Content) (off n : ℕ) → ((x : ℕ) → off ≤ x → c x ≡ d x) → slice c off n ≡ slice d off n
slice_congr c d off zero same = refl
slice_congr c d off (suc n) same =
    ap₂ ◌∷◌ (same off (le_refl off)) (slice_congr c d (off + 1) n (λ x h. same x (omega arith)))

overlay_below : (c : Content) (off : ℕ) (bs : List ℕ) (x : ℕ) → x < off → overlay c off bs x ≡ c x
overlay_below c off bs x h = ground arith

overlay_from :
    (c : Content) (off : ℕ) (bs : List ℕ) (x : ℕ)
    → off ≤ x
    → overlay c off bs x ≡ get_or bs (x - off) (c x)
overlay_from c off bs x h = ground arith

pub overlay_beyond :
    (c : Content) (off : ℕ) (bs : List ℕ) (x : ℕ) → off + length bs ≤ x → overlay c off bs x ≡ c x
overlay_beyond c off bs x h =
    overlay_from c off bs x (omega arith) ∙ get_or_beyond bs (x - off) (c x) (omega arith)

-- Writing back what was read changes nothing.
pub overlay-slice : (c : Content) (off n : ℕ) → overlay c off (slice c off n) ≡ c
overlay-slice c off n = fun_ext λ x. ground (
  arith,
  get_or-slice c off n (x - off) (c x),
  get_or_beyond (slice c off n) (x - off) (c x),
  length-slice c off n,
)

-- A write of two pieces is the two writes in turn.
pub overlay-append :
    (c : Content) (off : ℕ) (xs ys : List ℕ)
    → overlay c off (xs ++ ys) ≡ overlay (overlay c off xs) (off + length xs) ys
overlay-append c off xs ys = fun_ext λ x. ground (
  arith,
  get_or-append_left xs ys (x - off) (c x),
  get_or-append_right xs ys (x - off) (c x),
  get_or_beyond xs (x - off) (c x),
)

-- Two writes of consecutive pieces of a buffer are the write of both.
pub overlay-take :
    (c : Content) (off m n : ℕ) (src : List ℕ)
    → m ≤ length src
    → overlay (overlay c off (take m src)) (off + m) (take n (drop m src))
      ≡ overlay c off (take (m + n) src)
overlay-take c off m n src h =
    ap (λ (k : ℕ). overlay (overlay c off (take m src)) (off + k) (take n (drop m src)))
      (sym (length-take m src h))
    ∙ sym (overlay-append c off (take m src) (take n (drop m src)))
    ∙ ap (overlay c off) (take-append-take-drop m n src)

pub length-splice :
    (tmp : List ℕ) (skip : ℕ) (bs : List ℕ)
    → skip + length bs ≤ length tmp
    → length (splice tmp skip bs) ≡ length tmp
length-splice tmp skip bs h = omega (
  arith,
  length-append (take skip tmp) (bs ++ drop (skip + length bs) tmp),
  length-append bs (drop (skip + length bs) tmp),
  length-take skip tmp (omega arith),
  length-drop (skip + length bs) tmp,
)

-- A read, patch and write back of a block is the write of the patch alone.
pub overlay-splice :
    (c : Content) (base size skip : ℕ) (bs : List ℕ)
    → skip + length bs ≤ size
    → overlay c base (splice (slice c base size) skip bs) ≡ overlay c (base + skip) bs
overlay-splice c base size skip bs h =
    overlay c base (splice (slice c base size) skip bs)
    ≡⟨ ap₂ (λ xs ys. overlay c base (xs ++ (bs ++ ys))) (take-slice c base skip size (omega arith))
        (drop-slice c base (skip + length bs) size h) ⟩
      overlay c base (slice c base skip ++ (bs ++ slice c after rest))
    ≡⟨ overlay-append c base (slice c base skip) (bs ++ slice c after rest) ⟩
      overlay (overlay c base (slice c base skip)) (base + length (slice c base skip))
        (bs ++ slice c after rest)
    ≡⟨ ap₂ (λ d k. overlay d (base + k) (bs ++ slice c after rest)) (overlay-slice c base skip)
        (length-slice c base skip) ⟩
      overlay c (base + skip) (bs ++ slice c after rest)
    ≡⟨ overlay-append c (base + skip) bs (slice c after rest) ⟩
      overlay patched (base + skip + length bs) (slice c after rest)
    ≡⟨ ap₂ (overlay patched) (omega arith) (
        slice_congr c patched after rest
          λ x k. sym (overlay_beyond c (base + skip) bs x (omega arith))) ⟩
      overlay patched after (slice patched after rest)
    ≡⟨ overlay-slice patched after rest ⟩ patched ∎
  where
    after : ℕ
    after = base + (skip + length bs)

    rest : ℕ
    rest = size - (skip + length bs)

    patched : Content
    patched = overlay c (base + skip) bs

slice_of :
    (c : Content) (off : ℕ) (bs : List ℕ) (d : ℕ → ℕ)
    → ((i : ℕ) → i < length bs → c (off + i) ≡ get_or bs i (d i))
    → slice c off (length bs) ≡ bs
slice_of c off [] d h = refl
slice_of c off (b ∷ bs) d h =
    ap₂ ◌∷◌ (ap c (omega arith) ∙ h 0 (omega arith)) (
      slice_of c (off + 1) bs (λ i. d (suc i)) λ i lt. ap c (omega arith) ∙ h (suc i) (omega arith))

-- What was written is read.
pub slice-overlay :
    (c : Content) (off : ℕ) (bs : List ℕ) → slice (overlay c off bs) off (length bs) ≡ bs
slice-overlay c off bs =
    slice_of (overlay c off bs) off bs (λ i. c (off + i))
      λ i lt.
        overlay_from c off bs (off + i) (omega arith)
        ∙ ap (λ k. get_or bs k (c (off + i))) (omega arith)
