-- ===== src/Wakeup/Tests.antt =====
-- A sender that waits for a full ring to be emptied, and a receiver that takes a message.
use memequeue.Prelude.{some, ◌≡◌, refl, arith}
use memequeue.Io.{IoError, Result}
use memequeue.Control.{Side, load_offset, add_waiter}
use memequeue.Process.{
  World, Peer, with_header, offset_of, futex_wake, wakes_of, futex_wait, interfere, spin, wait,
  notify,
}
use memequeue.Process.{sleep as process_sleep, asleep as process_asleep}
use memequeue.Queue.Tests.{fresh, taking}
use memequeue.Wakeup.Runs.{NotifyRun, notify-NotifyRun}
use memequeue.Wakeup.{
  committed, idle, LeftSide, enter, count, sleep, commit_offset, waits, notifies, Reach, here,
  later,
}
use memequeue.Wakeup.Inv.{sleeper-Notified, waiters_exact, Notified, share}

-- The sender sleeps for as long as the left offset is 0.
abbrev sleeps : (s : LeftSide) × Reach s
sleeps = (_, later (later (later (here 0) (waits (enter 0))) (waits count)) (waits (sleep refl)))

-- Receiver 3 commits 24.
abbrev commits : (s : LeftSide) × Reach s
commits = (_, later sleeps.1 (notifies 3 (commit_offset 24)))

sleeper-Notified_example : Notified commits.0
sleeper-Notified_example = sleeper-Notified commits.1 0 refl (ground arith)

waiters_exact_example : commits.0.waiters ≡ share commits.0.waiter
waiters_exact_example = waiters_exact commits.1

-- A peer that does nothing but wake the sleepers on the left offset.
abbrev wakes_left : Peer
wakes_left w = futex_wake (offset_of Side.left) w

wakes_left_returns :
    (d : Result (Unit {0}) IoError × World) × (wait wakes_left 1 2 Side.left 0 fresh ≡ some d)
unfolding wait spin process_sleep futex_wait process_asleep interfere wakes_of load_offset
wakes_left_returns = (_, refl)

-- Somebody waits.
abbrev waited_for : World
waited_for = with_header (add_waiter Side.left) fresh

notify-NotifyRun_example :
    NotifyRun taking waited_for committed (notify taking Side.left waited_for).1 idle
notify-NotifyRun_example = notify-NotifyRun taking waited_for
