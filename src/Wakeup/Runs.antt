-- ===== src/Wakeup/Runs.antt =====
-- `wait` and `notify` of Process on the left offset, as one process makes them, against the accesses of
-- the sender and of a receiver.
use memequeue.Prelude.{ℕ, ◌≢◌, inl, inr, Bool-cases, ==_iff, ◌==◌, arith}
use memequeue.Control.{Side}
use memequeue.Process.{World, Peer, with_header, offset_of, futex_wake, interfere, notify}
use memequeue.Process.{sleep as sleep_behind, asleep as kernel_sleep}
use memequeue.Wakeup.{
  Waiter, elsewhere, asleep, Waits, sleep, Notifier, Notifies, idle, committed, waking,
  nobody_waits, somebody_waits,
}

abbrev with_waiters : ℕ → World → World
with_waiters n w = with_header (λ h. record h { left_waiters = n }) w

-- Accesses of the sender in `wait`, with what the others do between them.
pub data WaitRun (peer : Peer) : World → Waiter → World → Waiter → Type 0 where
  done : {w : World} {p : Waiter} → WaitRun peer w p w p
  moves :
      {w w' : World} {n : ℕ} {p p₁ p' : Waiter}
      → Waits w.header.left.offset w.header.left_waiters p w.header.left.offset n p₁
      → WaitRun peer (with_waiters n w) p₁ w' p'
      → WaitRun peer w p w' p'
  others :
      {w w' : World} {p p' : Waiter}
      → p ≢ elsewhere
      → WaitRun peer (interfere peer w) p w' p'
      → WaitRun peer w p w' p'

-- Accesses of a receiver in `notify`, with what the others do before the last.
pub data NotifyRun (peer : Peer) : World → Notifier → World → Notifier → Type 0 where
  done : {w : World} {p : Notifier} → NotifyRun peer w p w p
  moves :
      {w w' : World} {p p₁ p' : Notifier}
      → Notifies w.header.left.offset w.header.left_waiters p w.header.left.offset p₁
      → NotifyRun peer w p₁ w' p'
      → NotifyRun peer w p w' p'
  others :
      {w w' : World} {p p' : Notifier}
      → p ≢ idle
      → NotifyRun peer (interfere peer w) p w' p'
      → NotifyRun peer w p w' p'
  wakes :
      {w w' : World} {p' : Notifier}
      → NotifyRun peer (futex_wake (offset_of Side.left) w) idle w' p'
      → NotifyRun peer w waking w' p'

-- A `notify` of one process on the left offset is a run of the accesses of a receiver that has
-- committed, to the end of `notify`, with a `futex_wake` if it has found the count of waiters not 0.
pub notify-NotifyRun :
    (peer : Peer) (w : World) → NotifyRun peer w committed (notify peer Side.left w).1 idle
unfolding notify
notify-NotifyRun peer w =
    let n : ℕ = (interfere peer w).header.left_waiters in
    elim (Bool-cases (n == 0)) [
      | inl e ↦ rw e (others (ground arith) (moves (nobody_waits ((==_iff n 0).0 e)) done))
      | inr e ↦
          rw e (others (ground arith) (moves (somebody_waits (ground (arith, e))) (wakes done)))
    ]
