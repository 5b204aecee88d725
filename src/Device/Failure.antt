-- ===== src/Device/Failure.antt =====
-- Failures that are explained: a return of -1 has errno set to what the log tells.
use usbrw.Base.{
  ℕ, ◌≡◌, refl, Bool, true, false, List, take, Option, none, some, String, arith, inl, inr,
  if◌then◌else◌, Bool-cases,
}
use usbrw.Base.Int.{ℤ, neg, is_zero}
use usbrw.Bridge.{BlockIo, Machine, Outcome, ok, fail, fault, IoLog, Call, and_then, pure, ◌>>=◌}
use usbrw.Device.{checked, call_read, call_write}

-- The code of a message is what a callback returned for the request that the message tells, and the
-- callback left the device as it is.
pub data Returned {W : Type 0} (io : BlockIo W) (message : IoLog) (after : W) : Type 0 where
  by_read :
      {read : W → ℕ → ℕ → ℤ × List ℕ × W}
      → io.read ≡ some read
      → (w : W) → (read w message.off message.len).0 ≡ message.rc
      → (read w message.off message.len).2 ≡ after
      → Returned io message after
  by_write :
      {write : W → ℕ → List ℕ → ℤ × W}
      → io.write ≡ some write
      → (w : W) (bytes : List ℕ) → (write w message.off (take message.len bytes)).0 ≡ message.rc
      → (write w message.off (take message.len bytes)).1 ≡ after
      → Returned io message after

-- The last message of the log has the code of the last call of a callback, which is not zero, and
-- errno is that code negated.
pub record Tells {W : Type 0} (source : Option (BlockIo W)) (m : Machine W) : Type 0 where
  pub io : BlockIo W
  pub attached : source ≡ some io
  pub message : IoLog
  pub returned : Returned io message m.disk
  pub logged : m.last_error ≡ some message
  pub matches : m.errno ≡ neg message.rc
  pub nonzero : is_zero message.rc ≡ false

-- A call that fails only with an explanation.
pub record Explains {W A : Type 0} (io : BlockIo W) (call : Call W A) : Type 0 where
  pub explain : (m : Machine W) → (call m).0 ≡ fail → Tells (some io) (call m).1

module _ {W A : Type 0} {io : BlockIo W} where
  pub pure-Explains : (a : A) → Explains io (pure {W = W} a)
  pure-Explains a = record { explain = λ m failed. ground arith }

  pub if-Explains :
      (b : Bool) {r r' : Call W A}
      → Explains io r
      → Explains io r'
      → Explains io (if b then r else r')
  if-Explains true h h' = h
  if-Explains false h h' = h'

  checked-Tells :
      (op : String) (off len : ℕ) (rc : ℤ) (a : A) (m : Machine W)
      → Returned io (record { op = op; rc = rc; off = off; len = len }) m.disk
      → (checked op off len rc a m).0 ≡ fail
      → Tells (some io) (checked op off len rc a m).1
  unfolding checked
  checked-Tells op off len rc a m from = elim (Bool-cases (is_zero rc)) [
    | inl zero_code ↦ rw zero_code λ failed. ground arith
    | inr code ↦ rw code λ _. record {
      io = io;
      attached = refl;
      returned = from;
      message = record { op = op; rc = rc; off = off; len = len };
      logged = refl;
      matches = refl;
      nonzero = code;
    }
  ]

module _ {W A B : Type 0} {io : BlockIo W} where
  and_then-Tells :
      (run : Outcome A × Machine W) (k : A → Call W B)
      → (run.0 ≡ fail → Tells (some io) run.1)
      → ((a : A) → Explains io (k a))
      → (and_then run k).0 ≡ fail
      → Tells (some io) (and_then run k).1
  and_then-Tells (ok a, m) k h rest failed = (rest a).explain m failed
  and_then-Tells (fail, m) k h rest failed = h refl
  and_then-Tells (fault, m) k h rest failed = ground arith

  pub bind-Explains :
      {r : Call W A} {k : A → Call W B}
      → Explains io r
      → ((a : A) → Explains io (k a))
      → Explains io (r >>= k)
  bind-Explains {r} {k} h rest = record { explain = λ m. and_then-Tells (r m) k (h.explain m) rest }

module _ {W : Type 0} (io : BlockIo W) (op : String) where
  -- A call of a callback, if it is there.
  abbrev reading : (off len : ℕ) → Option (W → ℕ → ℕ → ℤ × List ℕ × W) → Call W (List ℕ)
  reading off len o m = elim o [
    | none ↦ (fault, m)
    | some read ↦
        let (rc, bytes, w) = read m.disk off len in
        checked op off len rc bytes (record m { disk = w })
  ]

  reading-Tells :
      (off len : ℕ) (o : Option (W → ℕ → ℕ → ℤ × List ℕ × W)) (m : Machine W)
      → io.read ≡ o
      → (reading off len o m).0 ≡ fail
      → Tells (some io) (reading off len o m).1
  reading-Tells off len none m here = λ failed. ground arith
  reading-Tells off len (some read) m here =
      checked-Tells op off len _ _ _ (by_read here m.disk refl refl)

  pub call_read-Explains : (off len : ℕ) → Explains io (call_read io op off len)
  unfolding call_read
  call_read-Explains off len = record { explain = λ m. reading-Tells off len io.read m refl }

  abbrev writing : (off len : ℕ) → List ℕ → Option (W → ℕ → List ℕ → ℤ × W) → Call W (Unit {0})
  writing off len bytes o m = elim o [
    | none ↦ (fault, m)
    | some write ↦
        let (rc, w) = write m.disk off (take len bytes) in
        checked op off len rc tt (record m { disk = w })
  ]

  writing-Tells :
      (off len : ℕ) (bytes : List ℕ) (o : Option (W → ℕ → List ℕ → ℤ × W)) (m : Machine W)
      → io.write ≡ o
      → (writing off len bytes o m).0 ≡ fail
      → Tells (some io) (writing off len bytes o m).1
  writing-Tells off len bytes none m here = λ failed. ground arith
  writing-Tells off len bytes (some write) m here =
      checked-Tells op off len _ _ _ (by_write here m.disk bytes refl refl)

  pub call_write-Explains :
      (off : ℕ) (bytes : List ℕ) (len : ℕ) → Explains io (call_write io op off bytes len)
  unfolding call_write
  call_write-Explains off bytes len = record {
    explain = λ m. writing-Tells off len bytes io.write m refl;
  }
