-- ===== src/Wakeup.antt =====
-- `wait` of the sender on the left offset and `notify` of any number of receivers
-- (src/control/shmem_futex.rs), an access at a time. Only the holder of the right lock waits, so there
-- is one waiter; receivers commit under the left lock and notify without it.
pub mod Inv
pub mod Runs
pub mod Tests
use memequeue.Prelude.{ℕ, ◌≡◌, ◌≢◌, add32, sub32}
use memequeue.Lock.{update}

-- Where the sender stands in `wait(Left, expected)`.
pub data Waiter : Type 0 where
  elsewhere : Waiter
  spinning : (expected : ℕ) → Waiter
  counted : (expected : ℕ) → Waiter  -- before `futex_wait(offset, expected)`
  asleep : (expected : ℕ) → Waiter  -- in the kernel
  leaving : Waiter  -- before `fetch_sub`

-- Where a receiver stands.
pub data Notifier : Type 0 where
  idle : Notifier
  committed : Notifier  -- before it loads the count of waiters
  waking : Notifier  -- before `futex_wake(offset, 1)`

-- The left offset, the count of its waiters, the sender, and the receivers by number.
pub record LeftSide : Type 0 where
  pub offset : ℕ
  pub waiters : ℕ
  pub waiter : Waiter
  pub notifiers : ℕ → Notifier

-- An access of the sender: offset, count and place, before and behind.
pub data Waits (offset waiters : ℕ) : Waiter → ℕ → ℕ → Waiter → Type 0 where
  fix_offsets : (o : ℕ) → Waits offset waiters elsewhere o waiters elsewhere
  enter : (expected : ℕ) → Waits offset waiters elsewhere offset waiters (spinning expected)
  -- The spinning sees another offset
  sees : {e : ℕ} → offset ≢ e → Waits offset waiters (spinning e) offset waiters elsewhere
  -- or ends.
  count : {e : ℕ} → Waits offset waiters (spinning e) offset (add32 waiters 1) (counted e)
  sleep : {e : ℕ} → offset ≡ e → Waits offset waiters (counted e) offset waiters (asleep e)
  stay_awake : {e : ℕ} → offset ≢ e → Waits offset waiters (counted e) offset waiters leaving
  interrupted : {e : ℕ} → Waits offset waiters (asleep e) offset waiters leaving
  leave : Waits offset waiters leaving offset (sub32 waiters 1) elsewhere

-- An access of a receiver: offset and place.
pub data Notifies (offset waiters : ℕ) : Notifier → ℕ → Notifier → Type 0 where
  commit_offset : (o : ℕ) → Notifies offset waiters idle o committed
  nobody_waits : waiters ≡ 0 → Notifies offset waiters committed offset idle
  somebody_waits : waiters ≢ 0 → Notifies offset waiters committed offset waking

pub data Step (s : LeftSide) : LeftSide → Type 0 where
  waits :
      {o n : ℕ} {p : Waiter}
      → Waits s.offset s.waiters s.waiter o n p
      → Step s (record { offset = o; waiters = n; waiter = p; notifiers = s.notifiers })
  notifies :
      (i : ℕ) {o : ℕ} {p : Notifier}
      → Notifies s.offset s.waiters (s.notifiers i) o p
      → Step s (record s { offset = o; notifiers = update s.notifiers i p })
  -- `futex_wake` wakes the sender if it sleeps.
  wake :
      (i : ℕ) {e : ℕ}
      → s.notifiers i ≡ waking
      → s.waiter ≡ asleep e
      → Step s (record s { waiter = leaving; notifiers = update s.notifiers i idle })
  wake_nobody :
      (i : ℕ)
      → s.notifiers i ≡ waking
      → ((e : ℕ) → s.waiter ≢ asleep e)
      → Step s (record s { notifiers = update s.notifiers i idle })

-- Nobody waits or notifies.
abbrev pub quiet : ℕ → LeftSide
quiet o = record { offset = o; waiters = 0; waiter = elsewhere; notifiers = λ _. idle }

pub data Reach : LeftSide → Type 0 where
  here : (o : ℕ) → Reach (quiet o)
  later : {s t : LeftSide} → Reach s → Step s t → Reach t
