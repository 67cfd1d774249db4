-- ===== src/Lock/Tests.antt =====
-- Two threads at the lock of src/control/shmem_futex.rs.
use memequeue.Prelude.{ℕ, ◌≡◌, ◌≢◌, ◌↔◌, refl, arith}
use memequeue.Lock.{
  out, inside, Threads, exchange, exchange_fails, swap_fails, sleep, pick, Reach, here, later,
}
use memequeue.Io.{IfSome}
use memequeue.Control.{Side, set_lock}
use memequeue.Process.{World, with_header, unlock, lock}
use memequeue.Queue.Tests.{fresh, taking}
use memequeue.Lock.Runs.{LockRun, lock-LockRun, unlock-LockRun}
use memequeue.Lock.Safety.{mutual_exclusion, locked_iff, sleeper-CanWake, CanWake}

one_taken : ◌≢◌ {A = ℕ} 1 0
one_taken = ground arith

-- Thread 0 takes the lock, and thread 1 goes to sleep.
abbrev steps : (s : Threads) × Reach s
steps = (
  _,
  later
      (later (later (later here (pick 0 (exchange refl))) (pick 1 (exchange_fails one_taken)))
        (pick 1 (swap_fails one_taken)))
      (pick 1 (sleep refl)),
)

abbrev sleeping : Threads
sleeping = steps.0

mutual_exclusion_example : sleeping.pc 1 ≢ inside
mutual_exclusion_example = mutual_exclusion steps.1 0 1 (ground arith) refl

locked_iff_example : (sleeping.word ≢ 0) ↔ ((i : ℕ) × (sleeping.pc i ≡ inside))
locked_iff_example = locked_iff steps.1

sleeper-CanWake_example : CanWake 1 sleeping
sleeper-CanWake_example = sleeper-CanWake steps.1 1 refl

lock-LockRun_example :
    IfSome (λ w. LockRun taking Side.right fresh out w inside) (lock taking 1 Side.right fresh)
lock-LockRun_example = lock-LockRun taking Side.right 1 fresh

-- A lock for which others wait.
abbrev contended : World
contended = with_header (set_lock Side.right 2) fresh

unlock-LockRun_example :
    LockRun taking Side.right contended inside (unlock Side.right contended) out
unlock-LockRun_example = unlock-LockRun taking Side.right contended
