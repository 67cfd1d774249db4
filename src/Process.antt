-- ===== src/Process.antt =====
-- The calls of src/control/shmem_futex.rs that take part in the synchronisation, as one process makes
-- them. `peer` is what the other processes do to the shared memory while this one does nothing: it
-- runs before every access that they can influence.
pub mod Stable
use memequeue.Prelude.{
  ℕ, zero, suc, ◌+◌, List, [], ◌∷◌, ltb, Option, none, some, ◌==◌, if◌then◌else◌,
}
use memequeue.Memory.{Bytes}
use memequeue.Io.{IoError, Result, ok, err, ◌>>=◌}
use memequeue.Control.{
  Side, Header, half, waiters, load_offset, add_waiter, remove_waiter, set_lock,
}

-- The futexes of the header.
pub data Futex : Type 0 where
  offset_of lock_of : Side → Futex

-- How often a side's offset was woken.
abbrev is_wake : Side → Futex → ℕ
is_wake Side.left (offset_of Side.left) = 1
is_wake Side.right (offset_of Side.right) = 1
is_wake side f = 0

unfoldable pub wakes_of : Side → List Futex → ℕ
wakes_of side [] = 0
wakes_of side (f ∷ fs) = is_wake side f + wakes_of side fs

-- The shared memory, how often the others have run, and the futexes woken, the latest first; what
-- a peer puts in front of them it has woken, or is a spurious wake-up.
pub record World : Type 0 where
  pub header : Header
  pub bytes : Bytes
  pub clock : ℕ
  pub wakes : List Futex

abbrev pub Peer : Type 0
Peer = World → World

-- `futex_wake(futex, 1)`
abbrev pub futex_wake : Futex → World → World
futex_wake f w = record w { wakes = f ∷ w.wakes }

abbrev pub with_header : (Header → Header) → World → World
with_header f w = record w { header = f w.header }

-- Dropping a `ShmemFutexGuard`: swap in 0, and wake a sleeper if the lock was contended.
unfoldable pub unlock : Side → World → World
unlock side w =
    let w' = with_header (set_lock side 0) w in
    if (half side w.header).lock == 2 then futex_wake (lock_of side) w' else w'

module _ (peer : Peer) where
  unfoldable pub interfere : World → World
  interfere w = let w' = peer w in record w' { clock = w.clock + 1; wakes = w.wakes }

  -- `while futex.swap(2) != 0 { futex_wait(futex, 2) }`; `none` if the fuel runs out first.
  unfoldable pub lock_contended : ℕ → Side → World → Option World
  unfolding interfere
  lock_contended zero side w = none
  lock_contended (suc fuel) side w =
      let w' = with_header (set_lock side 2) w in
      let rest = lock_contended fuel side (interfere w') in
      if (half side w.header).lock == 0 then some w' else rest

  unfoldable pub lock : ℕ → Side → World → Option World
  unfolding interfere lock_contended
  lock fuel side w =
      let w' = interfere w in
      if (half side w'.header).lock == 0
      then some (with_header (set_lock side 1) w')
      else lock_contended fuel side w'

  -- The spinning of `wait`: whether the offset was seen to differ, and the state then.
  unfoldable pub spin : ℕ → Side → ℕ → World → Result World World
  unfolding interfere load_offset
  spin zero side expected w = err w
  spin (suc n) side expected w =
      let w' = interfere w in
      let rest = spin n side expected w' in
      if load_offset side w'.header == expected then rest else ok w'

  -- In the kernel: until a run of the others has woken this futex. `none` if the fuel runs out first.
  unfoldable pub asleep : ℕ → Side → World → Option World
  unfolding interfere wakes_of
  asleep zero side w = none
  asleep (suc fuel) side w =
      let w' = interfere w in
      let rest = asleep fuel side w' in
      if ltb (wakes_of side w.wakes) (wakes_of side (peer w).wakes) then some w' else rest

  -- `futex_wait(&half.offset, expected)`: it does not sleep if the offset is another one by then.
  unfoldable pub futex_wait : ℕ → Side → ℕ → World → Option World
  unfolding interfere asleep load_offset
  futex_wait fuel side expected w =
      let w' = interfere w in
      if load_offset side w'.header == expected then asleep fuel side w' else some w'

  -- `wait` behind the spinning.
  unfoldable pub sleep :
      ℕ → Side → ℕ → Result World World → Option (Result (Unit {0}) IoError × World)
  unfolding futex_wait
  sleep fuel side expected (ok w) = some (ok tt, w)
  sleep fuel side expected (err w) =
      futex_wait fuel side expected (with_header (add_waiter side) w) >>= λ w'.
      some (ok tt, with_header (remove_waiter side) w')

  unfoldable pub wait : ℕ → ℕ → Side → ℕ → World → Option (Result (Unit {0}) IoError × World)
  unfolding spin sleep
  wait fuel spin_on_wait side expected w =
      sleep fuel side expected (spin spin_on_wait side expected w)

  unfoldable pub notify : Side → World → Result (Unit {0}) IoError × World
  unfolding interfere
  notify side w =
      let w' = interfere w in
      (ok tt, if waiters side w'.header == 0 then w' else futex_wake (offset_of side) w')
