-- ===== src/Ext/Files/Lookups.antt =====
-- Looking up names, over a library that does what it should.
use usbrw.Base.{ℕ, ◌≡◌, refl, none, some, true, false}
use usbrw.Bridge.{enoent}
use usbrw.Ext.Engine.{Engine, Name}
use usbrw.Ext.Files.{u32, lookup, lookup_errno}
use usbrw.Ext.Library.{Library}
use usbrw.Ext.Library.View.{Shelf}
use usbrw.Ext.Reply.{done, failed}

module _ {S : Type 0} {e : Engine S} {shelf : S → Shelf} (library : Library e shelf) where
  pub lookup-found :
      (dir : ℕ) (name : Name) (n : ℕ) (s : S)
      → (shelf s).names (u32 dir) name ≡ some n
      → lookup e true dir name false s ≡ (done (n, none), s)
  unfolding lookup
  lookup-found dir name n s named = rw (library.lookup_found (u32 dir) name n s named) refl

  pub lookup-missing :
      (dir : ℕ) (name : Name) (s : S)
      → (shelf s).names (u32 dir) name ≡ none
      → lookup e true dir name false s ≡ (failed enoent, s)
  unfolding lookup lookup_errno
  lookup-missing dir name s free = rw (library.lookup_missing (u32 dir) name s free) refl
