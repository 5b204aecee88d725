-- ===== src/Ext/Tests/Listing.antt =====
-- Runs of the enumeration of a directory that holds "a" and "b".
use usbrw.Base.{ℕ, ◌≡◌, refl, true, List, [], ◌∷◌, length, arith}
use usbrw.Ext.Dir.{readdir}
use usbrw.Ext.Dir.Delivery.{items, Iterates}
use usbrw.Ext.Dir.Resume.{Packer, pack, Packed, resume_lem}
use usbrw.Ext.Engine.{DirEntry}
use usbrw.Ext.Tests.Names.{disk}
use usbrw.Ext.Tests.Toy.{toy, toy-Library, listing}

toy-Iterates : Iterates toy 2 listing disk
toy-Iterates = λ P f p. refl

abbrev empty : ℕ → ℕ → Packer
empty room last = record { room = room; got = []; last = last }

listing-Packed : Packed 0 listing
listing-Packed =
    (refl, omega arith, (refl, omega arith, (refl, omega arith, (refl, omega arith, tt))))

resume_lem_example :
    let ((r, p), s') = readdir toy true pack 2 0 (empty 1 0) disk in
    let ((r', p'), s'') =
      readdir toy true pack 2 p.last (record { room = 5; got = p.got; last = p.last }) s' in
    p'.got ≡ items 0 disk listing
resume_lem_example =
    resume_lem toy-Library 2 0 0 listing 1 5 disk toy-Iterates listing-Packed (omega arith)

-- A directory of two blocks with one entry each: the offset begins anew in the second block, so the
-- cookie behind the first entry passes over the second.
abbrev two_blocks : List DirEntry
two_blocks =
    record { offset = 0; rec_len = 1024; name_len = 1; name = b'a' ∷ []; inode = 12 }
    ∷ record { offset = 0; rec_len = 1024; name_len = 1; name = b'b' ∷ []; inode = 13 }
    ∷ []

second_lost : (length (items 0 disk two_blocks) ≡ 2) × (items 1024 disk two_blocks ≡ [])
second_lost = (refl, refl)
