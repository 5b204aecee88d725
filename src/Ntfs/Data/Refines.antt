-- ===== src/Ntfs/Data/Refines.antt =====
-- Reading and writing a file, over a library that transfers at least a byte in each call.
use usbrw.Base.{
  ℕ, zero, suc, ◌+◌, ◌-◌, ◌<◌, ◌≤◌, ◌≡◌, refl, sym, ap, ap₂, ◌∙◌, min, Bool, true, false, not, ◌&&◌,
  some, none, List, [], ◌∷◌, arith, inl, inr, ltb, ◌==◌, if◌then◌else◌, Bool-cases, length, take,
  drop, length-drop, ltb→lt, not_ltb→le, take-append-drop, length-take,
}
use usbrw.Base.Int.{pos}
use usbrw.Bytes.{Content, slice, overlay, slice-append, slice_at, overlay-slice, overlay-append}
use usbrw.Ext.Reply.{done}
use usbrw.Ntfs.Data.{
  opened, Engine, all, stamp_read, stamp_written, read_loop, end_read, read_data, read, write_loop,
  end_write, write,
}

module _ {S : Type 0} (e : Engine S) (mft : ℕ) (content : S → Content) where
  -- A call that returns `a` and leaves the file's bytes and size as they were.
  pub record Leaves {A : Type 0} (run : A × S) (a : A) (s : S) : Type 0 where
    pub state : S
    pub returns : run ≡ (a, state)
    pub same_content : content state ≡ content s
    pub same_size : e.data_size mft state ≡ e.data_size mft s

  -- A transfer of one byte or more out of the file.
  pub record Reads (off size : ℕ) (s : S) : Type 0 where
    pub less : ℕ
    pub errno : ℕ
    pub bytes : List ℕ
    pub fits : suc less ≤ size
    pub read : Leaves (e.pread mft off size s) (pos (suc less), errno, bytes) s
    pub right : take (suc less) bytes ≡ slice (content s) off (suc less)

  -- A transfer of one byte or more into the file.
  pub record Writes (off : ℕ) (bytes : List ℕ) (s : S) : Type 0 where
    pub less : ℕ
    pub errno : ℕ
    pub state : S
    pub fits : suc less ≤ length bytes
    pub returns : e.pwrite mft off bytes s ≡ ((pos (suc less), errno), state)
    pub puts : content state ≡ overlay (content s) off (take (suc less) bytes)

  -- A file that can be opened and closed, and transfers some bytes, maybe not all, in each call.
  pub record IsFile : Type 0 where
    pub open_inode : (s : S) → Leaves (e.open_inode mft s) (opened false) s
    pub open_data : (s : S) → Leaves (e.open_data mft s) (opened tt) s
    pub close_inode : (s : S) → Leaves (e.close_inode mft s) none s
    pub close_data : (s : S) → content (e.close_data mft s) ≡ content s
    pub update_atime : (s : S) → content (e.update_atime mft s) ≡ content s
    pub set_archive : (s : S) → content (e.set_archive_and_times mft s) ≡ content s
    pub pread :
        (off size : ℕ) (s : S) → 0 < size → off + size ≤ e.data_size mft s → Reads off size s
    pub pwrite : (off : ℕ) (bytes : List ℕ) (s : S) → 0 < length bytes → Writes off bytes s

module _ {S : Type 0} {e : Engine S} {mft : ℕ} {content : S → Content}
    (file : IsFile e mft content) where
  read_loop-Leaves :
      (fuel off size : ℕ) (s : S)
      → size ≤ fuel
      → off + size ≤ e.data_size mft s
      → Leaves e mft content (read_loop e mft fuel off size s) (done (slice (content s) off size)) s
  unfolding read_loop
  read_loop-Leaves zero off zero s enough inside = record {
    state = s;
    returns = refl;
    same_content = refl;
    same_size = refl;
  }
  read_loop-Leaves (suc fuel) off zero s enough inside = record {
    state = s;
    returns = refl;
    same_content = refl;
    same_size = refl;
  }
  read_loop-Leaves zero off (suc size) s enough inside = elim enough [ ]
  read_loop-Leaves (suc fuel) off (suc size) s enough inside =
      let piece = file.pread off (suc size) s (omega arith) inside in
      let k = suc piece.less in
      let fits : ltb (suc size) k ≡ false = ground (arith, piece.fits) in
      let c = content s in
      let rest =
        read_loop-Leaves fuel (off + k) (suc size - k) piece.read.state (omega arith)
          (omega (arith, piece.fits, piece.read.same_size)) in
      record {
        state = rest.state;
        returns =
            rw (piece.read.returns, fits, rest.returns, piece.right, piece.read.same_content)
              (ap (λ bs. (done bs, rest.state))
                (slice-append c off k (suc size - k)
                  ∙ slice_at c {n = suc size} refl (omega (arith, piece.fits))));
        same_content = rest.same_content ∙ piece.read.same_content;
        same_size = rest.same_size ∙ piece.read.same_size;
      }

  write_loop-all :
      (fuel off total : ℕ) (bytes : List ℕ) (s : S)
      → length bytes ≤ fuel
      → (w : S) × (write_loop e mft fuel off total bytes s ≡ (some (all (total + length bytes)), w))
        × (content w ≡ overlay (content s) off bytes)
  unfolding write_loop
  write_loop-all zero off total [] s enough =
      (s, ap (λ k. (some (all k), s)) (omega arith), sym (overlay-slice (content s) off 0))
  write_loop-all (suc fuel) off total [] s enough =
      (s, ap (λ k. (some (all k), s)) (omega arith), sym (overlay-slice (content s) off 0))
  write_loop-all zero off total (b ∷ bytes) s enough = elim enough [ ]
  write_loop-all (suc fuel) off total (b ∷ bytes) s enough =
      let src = b ∷ bytes in
      let piece = file.pwrite off src s (omega arith) in
      let k = suc piece.less in
      let left : length (drop k src) ≡ length src - k = length-drop k src in
      let (w, returns, puts) =
        write_loop-all fuel (off + k) (total + k) (drop k src) piece.state
          (omega (arith, left, enough)) in
      (
        w,
        rw (piece.returns, returns) (ap (λ j. (some (all j), w)) (omega (arith, left, piece.fits))),
        puts
            ∙ ap (λ d. overlay d (off + k) (drop k src)) piece.puts
            ∙ ap (λ j. overlay (overlay (content s) off (take k src)) (off + j) (drop k src))
                (sym (length-take k src piece.fits))
            ∙ sym (overlay-append (content s) off (take k src) (drop k src))
            ∙ ap (overlay (content s) off) (take-append-drop k src),
      )

  stamped_read : (b : Bool) (s : S) → content (stamp_read e mft b s) ≡ content s
  stamped_read true s = file.update_atime s
  stamped_read false s = refl

  stamped_written : (b : Bool) (s : S) → content (stamp_written e mft b s) ≡ content s
  stamped_written true s = file.set_archive s
  stamped_written false s = refl

  closed_read :
      (noatime : Bool) (bytes : List ℕ) (s : S)
      → (w : S) × (end_read e mft noatime (done bytes, s) ≡ (done bytes, w))
        × (content w ≡ content s)
  closed_read noatime bytes s =
      let transferred = not (length bytes == 0) in
      let stamped = stamp_read e mft (transferred && not noatime) s in
      let shut = file.close_inode (e.close_data mft stamped) in
      (
        shut.state,
        rw shut.returns refl,
        shut.same_content ∙ file.close_data stamped ∙ stamped_read (transferred && not noatime) s,
      )

  read_data_lem :
      (noatime : Bool) (offset len : ℕ) (s : S)
      → (w : S) × (read_data e mft noatime offset len s
          ≡ (done (slice (content s) offset (min len (e.data_size mft s - offset))), w))
        × (content w ≡ content s)
  unfolding read_data
  read_data_lem noatime offset len s =
      let size = e.data_size mft s in
      let n = min len (size - offset) in
      elim (Bool-cases (ltb offset size)) [
        | inl inside ↦
            let got =
              read_loop-Leaves n offset n s (omega arith)
                (omega (arith, ltb→lt offset size inside)) in
            let (w, closed, kept) = closed_read noatime (slice (content s) offset n) got.state in
            let cut : (if ltb size (offset + len) then size - offset else len) ≡ n =
              ground (arith, ltb→lt offset size inside) in
            (w, rw (inside, cut, got.returns) closed, kept ∙ got.same_content)
        | inr outside ↦
            let (w, closed, kept) = closed_read noatime [] s in
            (
              w,
              rw (outside, closed)
                  (ap (λ k. (done (slice (content s) offset k), w)) {x = 0}
                    (omega (arith, not_ltb→le offset size outside))),
              kept,
            )
      ]

  -- `nfsk_read` of a file returns the bytes at the offset, as many as are asked for and the file
  -- has, in however many pieces the library hands them over; the loop ends, and the file's bytes
  -- stay as they were.
  pub nfsk_read_lem :
      (noatime : Bool) (offset len : ℕ) (s : S)
      → (w : S) × (read e mft true noatime offset len s
          ≡ (done (slice (content s) offset (min len (e.data_size mft s - offset))), w))
        × (content w ≡ content s)
  unfolding read
  nfsk_read_lem noatime offset zero s =
      (s, ap (λ k. (done (slice (content s) offset k), s)) {x = 0} (omega arith), refl)
  nfsk_read_lem noatime offset (suc len) s =
      let asked : (suc len == 0) ≡ false = ground arith in
      let inode = file.open_inode s in
      let attr = file.open_data inode.state in
      let same = attr.same_content ∙ inode.same_content in
      let (w, returns, kept) = read_data_lem noatime offset (suc len) attr.state in
      (
        w,
        rw (asked, inode.returns, attr.returns)
            (returns
              ∙ ap₂ (λ c z. (done (slice c offset (min (suc len) (z - offset))), w)) same
                  (attr.same_size ∙ inode.same_size)),
        kept ∙ same,
      )

  closed_write :
      (total : ℕ) (s : S)
      → (w : S) × (end_write e mft (some (all total), s) ≡ (done total, w))
        × (content w ≡ content s)
  closed_write total s =
      let stamped = stamp_written e mft (ltb 0 total) (e.close_data mft s) in
      let shut = file.close_inode stamped in
      (
        shut.state,
        rw shut.returns refl,
        shut.same_content ∙ stamped_written (ltb 0 total) (e.close_data mft s) ∙ file.close_data s,
      )

  -- `nfsk_write` of a file that is no metadata puts all the bytes at the offset, in however many
  -- pieces the library takes them, and returns their number; the loop ends, and every other byte
  -- of the file stays as it was.
  pub nfsk_write_lem :
      (offset : ℕ) (bytes : List ℕ) (s : S)
      → e.first_user ≤ mft
      → (w : S) × (write e mft true offset bytes s ≡ (done (length bytes), w))
        × (content w ≡ overlay (content s) offset bytes)
  unfolding write
  nfsk_write_lem offset [] s user = (s, refl, sym (overlay-slice (content s) offset 0))
  nfsk_write_lem offset (b ∷ bytes) s user =
      let src = b ∷ bytes in
      let some_bytes : (length src == 0) ≡ false = ground arith in
      let no_metadata : ltb mft e.first_user ≡ false = ground arith in
      let inode = file.open_inode s in
      let attr = file.open_data inode.state in
      let (v, written, puts) = write_loop-all (length src) offset 0 src attr.state (omega arith) in
      let (w, closed, kept) = closed_write (0 + length src) v in
      (
        w,
        rw (some_bytes, inode.returns, no_metadata, attr.returns, written)
            (closed ∙ ap (λ k. (done k, w)) (omega arith)),
        kept ∙ puts ∙ ap (λ c. overlay c offset src) (attr.same_content ∙ inode.same_content),
      )
