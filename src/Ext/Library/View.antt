-- ===== src/Ext/Library/View.antt =====
-- Names, inodes and the table of inodes in use, and the same with only the link count of each
-- inode: the view that the operations on names are specified with.
use usbrw.Base.{
  ℕ, ◌-◌, ◌≡◌, ◌∙◌, sym, refl, fun_ext, ap, ap₂, ◌≢◌, Bool, true, false, ◌&&◌, Option, none, some,
  [], ◌∷◌, ◌==◌, ltb, if◌then◌else◌, arith, Bool-cases, ==→eq, inl, inr,
}
use usbrw.Ext.Engine.{Inode, Name}

abbrev pub same_name : Name → Name → Bool
same_name [] [] = true
same_name (a ∷ xs) (b ∷ ys) = a == b && same_name xs ys
same_name _ _ = false

abbrev pub put {ℓ} : {A : Type ℓ} → ℕ → A → (ℕ → A) → ℕ → A
put n a f x = if x == n then a else f x

-- The table of names after one is given a file, or none.
abbrev pub put_name : ℕ → Name → Option ℕ → (ℕ → Name → Option ℕ) → ℕ → Name → Option ℕ
put_name dir name target names d x = if d == dir && same_name x name then target else names d x

pub record Shelf : Type 0 where
  pub names : ℕ → Name → Option ℕ
  pub inode : ℕ → Inode
  pub in_use : ℕ → Bool

abbrev pub set_name : ℕ → Name → Option ℕ → Shelf → Shelf
set_name dir name target v = record v { names = put_name dir name target v.names }

abbrev pub shelve : ℕ → Inode → Shelf → Shelf
shelve n i v = record v { inode = put n i v.inode }

abbrev pub mark : ℕ → Bool → Shelf → Shelf
mark n used v = record v { in_use = put n used v.in_use }

pub record Tree : Type 0 where
  pub names : ℕ → Name → Option ℕ
  pub links : ℕ → ℕ
  pub in_use : ℕ → Bool

abbrev pub tree_of : Shelf → Tree
tree_of v = record { names = v.names; links = λ n. (v.inode n).i_links_count; in_use = v.in_use }

abbrev pub with_name : ℕ → Name → Option ℕ → Tree → Tree
with_name dir name target t = record t { names = put_name dir name target t.names }

abbrev pub with_links : ℕ → ℕ → Tree → Tree
with_links n k t = record t { links = put n k t.links }

abbrev pub with_use : ℕ → Bool → Tree → Tree
with_use n used t = record t { in_use = put n used t.in_use }

pub tree_of-shelve :
    (n : ℕ) (i : Inode) (v : Shelf)
    → tree_of (shelve n i v) ≡ with_links n i.i_links_count (tree_of v)
tree_of-shelve n i v =
    ap (λ (l : ℕ → ℕ). record { names = v.names; links = l; in_use = v.in_use })
      (fun_ext λ x. ground arith)

-- A count that is what it was.
pub with_links_same : (n k : ℕ) (t : Tree) → k ≡ t.links n → with_links n k t ≡ t
with_links_same n k t h =
    ap (λ (l : ℕ → ℕ). record { names = t.names; links = l; in_use = t.in_use })
      (fun_ext λ x. elim (Bool-cases (x == n)) [
        | inl same ↦ rw same (h ∙ ap t.links (sym (==→eq x n same)))
        | inr differs ↦ rw differs refl
      ])

-- An inode that is what it was.
pub shelve_same : (n : ℕ) (v : Shelf) → shelve n (v.inode n) v ≡ v
shelve_same n v =
    ap (λ (t : ℕ → Inode). record { names = v.names; inode = t; in_use = v.in_use })
      (fun_ext λ x. elim (Bool-cases (x == n)) [
        | inl same ↦ rw same (ap v.inode (sym (==→eq x n same)))
        | inr differs ↦ rw differs refl
      ])

pub same_name_refl : (name : Name) → same_name name name ≡ true
same_name_refl [] = refl
same_name_refl (a ∷ name) = ground (arith, same_name_refl name)

-- A file loses a link: with the last one it is no longer in use.
abbrev pub drop_link : ℕ → Tree → Tree
drop_link n t =
    let left = t.links n - 1 in
    if left == 0 then with_links n 0 (with_use n false t) else with_links n left t

-- A name of a file is removed.
abbrev pub remove_name : ℕ → Name → ℕ → Tree → Tree
remove_name dir name n t = drop_link n (with_name dir name none t)

-- A directory loses the link that the ".." of a subdirectory is.
abbrev pub lose_child : ℕ → Tree → Tree
lose_child dir t =
    if dir == 0 then t else if ltb 1 (t.links dir) then with_links dir (t.links dir - 1) t else t

-- A directory is removed from the one that holds it.
abbrev pub remove_dir : ℕ → Name → ℕ → Tree → Tree
remove_dir dir name n t =
    with_links n 0 (with_use n false (lose_child dir (with_name dir name none t)))

-- The file that a name stands for, if there is one, loses the name.
abbrev pub drop_target : Option ℕ → ℕ → Name → Tree → Tree
drop_target none dir name t = t
drop_target (some n) dir name t = remove_name dir name n t

-- A name that is to be given to another file is made free.
abbrev pub clear_name : ℕ → Name → Tree → Tree
clear_name dir name t = drop_target (t.names dir name) dir name t

-- A file that has one name gets another instead, which may have stood for another file.
abbrev pub move_name : (old_dir : ℕ) → Name → (new_dir : ℕ) → Name → ℕ → Tree → Tree
move_name old_dir old_name new_dir new_name n t =
    with_name old_dir old_name none
      (with_name new_dir new_name (some n) (clear_name new_dir new_name t))

module _ (dir : ℕ) (name : Name) where
  pub put_name-same :
      (v : Option ℕ) (names : ℕ → Name → Option ℕ) → put_name dir name v names dir name ≡ v
  put_name-same v names = ground (arith, same_name_refl name)

  pub remove_name-names :
      (n : ℕ) (t : Tree) → (remove_name dir name n t).names ≡ put_name dir name none t.names
  remove_name-names n t = elim (Bool-cases (t.links n - 1 == 0)) [
    | inl last ↦ rw last refl
    | inr more ↦ rw more refl
  ]

  -- A name that stands for a file does so after another name, or the same, was given to it too,
  -- whether that was cleared before or not.
  module _ (dir' : ℕ) (name' : Name) (n : ℕ) (names : ℕ → Name → Option ℕ)
      (named : names dir' name' ≡ some n) where
    pub put_name-keeps : put_name dir name (some n) names dir' name' ≡ some n
    put_name-keeps = ground arith

    pub put_name-again :
        put_name dir name (some n) (put_name dir name none names) dir' name' ≡ some n
    put_name-again = ground arith

pub same_name→≡ : (xs ys : Name) → same_name xs ys ≡ true → xs ≡ ys
same_name→≡ [] [] h = refl
same_name→≡ [] (b ∷ ys) h = ground arith
same_name→≡ (a ∷ xs) [] h = ground arith
same_name→≡ (a ∷ xs) (b ∷ ys) h =
    ap₂ ◌∷◌ (==→eq a b (ground arith)) (same_name→≡ xs ys (ground arith))

-- Two names that stand for different things are different names.
pub names_differ :
    (names : ℕ → Name → Option ℕ) (d d' : ℕ) (x x' : Name)
    → names d x ≢ names d' x'
    → (d == d' && same_name x x') ≡ false
names_differ names d d' x x' differ = elim (Bool-cases (d == d' && same_name x x')) [
  | inl same ↦
      elim (differ (ap₂ names (==→eq d d' (ground arith)) (same_name→≡ x x' (ground arith)))) [ ]
  | inr apart ↦ apart
]

-- A file that the name did not stand for is left alone.
pub drop_target-others :
    (o : Option ℕ) (dir : ℕ) (name : Name) (n : ℕ) (t : Tree)
    → o ≢ some n
    → ((drop_target o dir name t).links n ≡ t.links n)
      × ((drop_target o dir name t).in_use n ≡ t.in_use n)
drop_target-others none dir name n t other = (refl, refl)
drop_target-others (some x) dir name n t other =
    let apart : (n == x) ≡ false = ground arith in
    elim (Bool-cases (t.links x - 1 == 0)) [
      | inl last ↦ rw (last, apart) (refl, refl)
      | inr more ↦ rw (more, apart) (refl, refl)
    ]

pub remove_name-last :
    (dir : ℕ) (name : Name) (n : ℕ) (t : Tree)
    → t.links n ≡ 1
    → (remove_name dir name n t).in_use n ≡ false
remove_name-last dir name n t single =
    let last : (t.links n - 1 == 0) ≡ true = ground arith in rw last (ground arith)
