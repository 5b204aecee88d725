-- ===== src/Device/Medium.antt =====
-- What the callbacks promise: the medium takes ranges of whole blocks inside its size. `content`
-- reads off the bytes that the medium holds.
use usbrw.Base.{ℕ, ◌+◌, ◌%◌, ◌≤◌, ◌≡◌, some, List, String, length, take, sym, subst, length-take}
use usbrw.Base.Int.{pos}
use usbrw.Bytes.{Content, slice, overlay}
use usbrw.Bridge.{BlockIo, Machine, Reader, Writer, ok, Outcome}
use usbrw.Device.{call_read, call_write}

-- A whole number of blocks, inside the medium.
pub record IsRequest (al size off len : ℕ) : Type 0 where
  pub off_aligned : off % al ≡ 0
  pub len_aligned : len % al ≡ 0
  pub inside : off + len ≤ size

-- A call that returns `a`, having put `bs` at `off` and changed nothing else.
pub record Puts {W A : Type 0} (content : W → Content) (off : ℕ) (bs : List ℕ) (a : A)
    (m : Machine W) (run : Outcome A × Machine W) : Type 0 where
  pub disk : W
  pub returns : run ≡ (ok a, record m { disk = disk })
  pub puts : content disk ≡ overlay (content m.disk) off bs

module _ {W : Type 0} where
  -- The medium has whole blocks, a read returns its bytes and leaves it alone, a write replaces
  -- the bytes of its range.
  pub record IsMedium (al size : ℕ) (content : W → Content) (io : BlockIo W) : Type 0 where
    pub reader : Reader W
    pub writer : Writer W
    pub read_eq : io.read ≡ some reader
    pub write_eq : io.write ≡ some writer
    pub whole : size % al ≡ 0
    pub read_lem :
        (w : W) (off len : ℕ)
        → IsRequest al size off len
        → reader w off len ≡ (pos 0, slice (content w) off len, w)
    pub write_ok :
        (w : W) (off : ℕ) (bs : List ℕ)
        → IsRequest al size off (length bs)
        → (writer w off bs).0 ≡ pos 0
    pub write_lem :
        (w : W) (off : ℕ) (bs : List ℕ)
        → IsRequest al size off (length bs)
        → content (writer w off bs).1 ≡ overlay (content w) off bs

  module _ {al size : ℕ} {content : W → Content} {io : BlockIo W}
      (medium : IsMedium al size content io) (op : String) (m : Machine W) where
    pub call_read-ok :
        (off len : ℕ)
        → IsRequest al size off len
        → call_read io op off len m ≡ (ok (slice (content m.disk) off len), m)
    unfolding call_read
    call_read-ok off len req = rw (medium.read_eq, medium.read_lem m.disk off len req)

    -- The first `len` bytes of the buffer are written.
    pub call_write-Puts :
        (off len : ℕ) (bs : List ℕ)
        → IsRequest al size off len
        → len ≤ length bs
        → Puts content off (take len bs) tt m (call_write io op off bs len m)
    unfolding call_write
    call_write-Puts off len bs req h =
        let fits = subst (IsRequest al size off) (sym (length-take len bs h)) req in
        record {
          disk = (medium.writer m.disk off (take len bs)).1;
          returns = rw (medium.write_eq, medium.write_ok m.disk off (take len bs) fits);
          puts = medium.write_lem m.disk off (take len bs) fits;
        }
