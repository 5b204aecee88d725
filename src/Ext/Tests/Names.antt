-- ===== src/Ext/Tests/Names.antt =====
-- Runs of the operations on names: directory 2 holds the file 12 behind "a", the file 13, which has
-- two links, behind "b", and the directory 14 behind "d". It has no room: a new name extends it.
use usbrw.Base.{
  ℕ, ◌≡◌, refl, subst, true, false, ◌||◌, Option, none, some, [], ◌∷◌, inl, inr, arith, ◌==◌,
  if◌then◌else◌,
}
use usbrw.Bridge.Mode
use usbrw.Ext.Engine.{Inode, Name}
use usbrw.Ext.Library.{Does}
use usbrw.Ext.Library.View.{Shelf, tree_of, remove_name, remove_dir, move_name, same_name}
use usbrw.Ext.Rename.{rename}
use usbrw.Ext.Rename.Moves.{IsLinkedFile, rename_lem, rename_keeps, rename_self}
use usbrw.Ext.Reply.{done}
use usbrw.Ext.Tests.Toy.{blank, toy, toy-Library}
use usbrw.Ext.Tree.{unlink}
use usbrw.Ext.Tree.Creates.{Creates}
use usbrw.Ext.Tree.Unlinks.{unlink_file, unlink_dir}

abbrev names : ℕ → Name → Option ℕ
names dir name =
    if same_name name (b'a' ∷ [])
    then some 12
    else if same_name name (b'b' ∷ [])
    then some 13
    else if same_name name (b'd' ∷ [])
    then some 14
    else none

abbrev inodes : ℕ → Inode
inodes n =
    if n == 12
    then record blank { i_mode = Mode.ifreg; i_links_count = 1 }
    else if n == 13
    then record blank { i_mode = Mode.ifreg; i_links_count = 2 }
    else record blank { i_mode = Mode.ifdir; i_links_count = 3 }

abbrev pub disk : Shelf
disk = record {
  names = names;
  inode = inodes;
  in_use = λ n. n == 2 || (n == 12 || (n == 13 || n == 14));
}

unlink_file_example :
    Does
      (λ s. s)
      (unlink toy true 2 (b'a' ∷ []) 0 disk)
      tt
      (remove_name 2 (b'a' ∷ []) 12 (tree_of disk))
unlink_file_example =
    unlink_file toy-Library 2 (b'a' ∷ []) 12 0 disk refl (inl refl) refl (omega arith)

unlink_dir_example :
    Does
      (λ s. s)
      (unlink toy true 2 (b'd' ∷ []) 14 disk)
      tt
      (remove_dir 2 (b'd' ∷ []) 14 (tree_of disk))
unlink_dir_example = unlink_dir toy-Library 2 (b'd' ∷ []) 14 14 disk refl (inr refl) refl

-- The file behind "b" may lose a link.
b-IsLinkedFile : (t : ℕ) → disk.names 2 (b'b' ∷ []) ≡ some t → IsLinkedFile t (disk.inode t)
b-IsLinkedFile t named =
    let number : 13 ≡ t = ground arith in
    subst (λ k. IsLinkedFile k (inodes k)) number
      (record { small = omega arith; file = refl; linked = omega arith })

rename_lem_example :
    Does
      (λ s. s)
      (rename toy true 2 (b'a' ∷ []) 2 (b'b' ∷ []) disk)
      tt
      (move_name 2 (b'a' ∷ []) 2 (b'b' ∷ []) 12 (tree_of disk))
rename_lem_example =
    rename_lem toy-Library 2 (b'a' ∷ []) 2 (b'b' ∷ []) 12 disk refl (omega arith) b-IsLinkedFile
      refl

rename_keeps_example :
    let (result, w) = rename toy true 2 (b'a' ∷ []) 2 (b'b' ∷ []) disk in
    (result ≡ done tt)
    × (w.names 2 (b'b' ∷ []) ≡ some 12)
    × (w.names 2 (b'a' ∷ []) ≡ none)
    × ((w.inode 12).i_links_count ≡ 1)
    × (w.in_use 12 ≡ true)
rename_keeps_example =
    rename_keeps toy-Library 2 (b'a' ∷ []) 2 (b'b' ∷ []) 12 disk refl (omega arith) b-IsLinkedFile
      refl (λ h. ground arith)

a-IsLinkedFile : (t : ℕ) → disk.names 2 (b'a' ∷ []) ≡ some t → IsLinkedFile t (disk.inode t)
a-IsLinkedFile t named =
    let number : 12 ≡ t = ground arith in
    subst (λ k. IsLinkedFile k (inodes k)) number
      (record { small = omega arith; file = refl; linked = omega arith })

rename_self_example :
    let (result, w) = rename toy true 2 (b'a' ∷ []) 2 (b'a' ∷ []) disk in
    (result ≡ done tt) × (w.names 2 (b'a' ∷ []) ≡ none) × (w.in_use 12 ≡ false)
rename_self_example =
    rename_self toy-Library 2 (b'a' ∷ []) 2 (b'a' ∷ []) 12 disk refl (omega arith) a-IsLinkedFile
      refl refl refl refl
