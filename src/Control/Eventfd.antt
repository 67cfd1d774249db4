-- ===== src/Control/Eventfd.antt =====
-- src/control/eventfd.rs: waiting for an offset on an eventfd. The locks and the offsets are those of
-- the futex control.
pub mod Tests
use memequeue.Prelude.{
  ℕ, zero, suc, ◌+◌, ◌*◌, ◌^◌, ◌<◌, ◌≡◌, ◌==◌, true, false, inl, inr, Bool-cases, refl, ap, ◌∙◌,
  arith, if◌then◌else◌, add32, sub32,
}
use memequeue.Io.{IoError, Result, ok, err}
use memequeue.Os.{Outcome, value, fails, panics, waits, Call, Act}
use memequeue.Control.{Side, other, Header, half, waiters, set_waiters}

-- `EventFdControl`, less its clock
pub record EventFds : Type 0 where
  pub left_event : ℕ
  pub right_event : ℕ

-- `poll` for input gives the number of descriptors that are ready; an eventfd is read and written as
-- a number of 64 bits.
pub record Events (S : Type 0) : Type 0 where
  pub poll : ℕ → ℕ → Call S ℕ
  pub read : ℕ → Call S ℕ
  pub write : ℕ → ℕ → Call S (Unit {0})

-- 0xDEAD
abbrev pub dead : ℕ
dead = 57005

abbrev pub event : EventFds → Side → ℕ
event c Side.left = c.left_event
event c Side.right = c.right_event

-- The timeout of `poll`
abbrev pub patience : Side → ℕ
patience Side.left = 5000
patience Side.right = 6000

-- `waiters.fetch_sub(1)`
abbrev pub leave : Side → Header → Header
leave side h = set_waiters side (sub32 (waiters side h) 1) h

-- `peer` is what the other processes do to the header meanwhile.
module _ {S : Type 0} (os : Events S) (c : EventFds) (peer : Header → Header) where
  -- `wait` behind `read`
  abbrev pub after_read : Side → Header → Result ℕ IoError × S → Outcome (Unit {0}) × (Header × S)
  after_read side h (err e, s) = (fails e, (h, s))
  after_read side h (ok n, s) =
      if n == dead then (panics, (h, s)) else (value tt, (leave side h, s))

  -- `wait` behind `poll`
  abbrev pub after_poll : Side → Header → Result ℕ IoError × S → Outcome (Unit {0}) × (Header × S)
  after_poll side h (err e, s) = (panics, (h, (os.write (event c (other side)) dead s).1))
  after_poll side h (ok zero, s) = (panics, (h, (os.write (event c (other side)) dead s).1))
  after_poll side h (ok (suc n), s) = after_read side (peer h) (os.read (event c side) s)

  unfoldable pub wait : Side → ℕ → Act (Header × S) (Unit {0})
  wait side expected (h, s) =
      let h' = peer (set_waiters side (add32 (waiters side h) 1) h) in
      if (half side h').offset == expected
      then after_poll side h' (os.poll (event c side) (patience side) s)
      else (value tt, (leave side h', s))

  unfoldable pub notify : Side → Act (Header × S) (Unit {0})
  notify side (h, s) =
      let h' = peer h in
      let (r, s') = os.write (event c side) 1 s in
      if waiters side h' == 0
      then (value tt, (h', s))
      else elim r [ ok _ ↦ (value tt, (h', s')) | err e ↦ (fails e, (h', s')) ]

-- The count of waiters on a side, `n` before a call of `wait`, and what it is then.
abbrev pub Counts : {S : Type 0} → Side → ℕ → Outcome (Unit {0}) × (Header × S) → Type 0
Counts side n (value _, (h, s)) = waiters side h ≡ n
Counts side n (fails e, (h, s)) = waiters side h ≡ n + 1
Counts side n (panics, (h, s)) = waiters side h ≡ n + 1
Counts side n (waits, (h, s)) = ⊥

waiters-set_waiters : (side : Side) (n : ℕ) (h : Header) → waiters side (set_waiters side n h) ≡ n
waiters-set_waiters Side.left n h = refl
waiters-set_waiters Side.right n h = refl

module _ {S : Type 0} (os : Events S) (c : EventFds) (peer : Header → Header) (side : Side)
    (keeps : (h : Header) → waiters side (peer h) ≡ waiters side h) (n : ℕ)
    (small : n + 1 < 2 ^ 32) where
  leave_counts : (h : Header) → waiters side h ≡ n + 1 → waiters side (leave side h) ≡ n
  leave_counts h e = waiters-set_waiters side (sub32 (waiters side h) 1) h ∙ omega (arith, e, small)

  after_read-Counts :
      (h : Header) (d : Result ℕ IoError × S)
      → waiters side h ≡ n + 1
      → Counts side n (after_read os c peer side h d)
  after_read-Counts h (err e, s) same = same
  after_read-Counts h (ok v, s) same = elim (Bool-cases (v == dead)) [
    | inl e ↦ rw e same
    | inr e ↦ rw e (leave_counts h same)
  ]

  after_poll-Counts :
      (h : Header) (d : Result ℕ IoError × S)
      → waiters side h ≡ n + 1
      → Counts side n (after_poll os c peer side h d)
  after_poll-Counts h (err e, s) same = same
  after_poll-Counts h (ok zero, s) same = same
  after_poll-Counts h (ok (suc k), s) same =
      after_read-Counts (peer h) (os.read (event c side) s) (keeps h ∙ same)

  -- Where the others leave the count of waiters on this side as it is, and it is below 2^32 - 1: a
  -- `wait` that succeeds has put it back to what it was; one that fails or panics leaves it one higher.
  pub wait-Counts :
      (expected : ℕ) (h : Header) (s : S)
      → waiters side h ≡ n
      → Counts side n (wait os c peer side expected (h, s))
  unfolding wait
  wait-Counts expected h s e =
      let entered : Header = peer (set_waiters side (add32 (waiters side h) 1) h) in
      let more : waiters side entered ≡ n + 1 =
        keeps (set_waiters side (add32 (waiters side h) 1) h)
        ∙ waiters-set_waiters side (add32 (waiters side h) 1) h
        ∙ omega (arith, e, small) in
      elim (Bool-cases ((half side entered).offset == expected)) [
        | inl same ↦
            rw same (after_poll-Counts entered (os.poll (event c side) (patience side) s) more)
        | inr moved ↦ rw moved (leave_counts entered more)
      ]
