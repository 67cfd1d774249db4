-- ===== src/Process/Stable.antt =====
-- What the calls of Process.antt keep: whatever depends only on the queue's part of the memory and
-- is kept by the other processes.
use memequeue.Prelude.{ℕ, zero, suc, ◌≡◌, refl, some, inl, inr, Bool-cases, ◌==◌, arith, ltb}
use memequeue.Io.{IoError, Result, ok, err, IfSome, Ends->>=}
use memequeue.Control.{Side, half, waiters, load_offset, set_lock, add_waiter, remove_waiter}
use memequeue.Process.{
  Futex, offset_of, futex_wake, World, Peer, with_header, interfere, lock_contended, lock, unlock,
  wakes_of, asleep, futex_wait, spin, sleep, wait, notify,
}

-- The queue's part of the memory is the same; the locks and the counts of waiters may differ.
pub record SameQueue (w w' : World) : Type 0 where
  pub bytes : w'.bytes ≡ w.bytes
  pub left_offset : w'.header.left.offset ≡ w.header.left.offset
  pub right_offset : w'.header.right.offset ≡ w.header.right.offset
  pub left_cached : w'.header.left.cached_other_offset ≡ w.header.left.cached_other_offset
  pub right_cached : w'.header.right.cached_other_offset ≡ w.header.right.cached_other_offset

pub SameQueue-trans : (w w' w'' : World) → SameQueue w w' → SameQueue w' w'' → SameQueue w w''
SameQueue-trans w w' w'' s t = ground arith

pub set_lock-SameQueue :
    (side : Side) (v : ℕ) (w : World) → SameQueue w (with_header (set_lock side v) w)
set_lock-SameQueue Side.left v w = ground arith
set_lock-SameQueue Side.right v w = ground arith

pub unlock-SameQueue : (side : Side) (w : World) → SameQueue w (unlock side w)
unfolding unlock
unlock-SameQueue Side.left w = ground arith
unlock-SameQueue Side.right w = ground arith

pub add_waiter-SameQueue : (side : Side) (w : World) → SameQueue w (with_header (add_waiter side) w)
add_waiter-SameQueue Side.left w = ground arith
add_waiter-SameQueue Side.right w = ground arith

pub remove_waiter-SameQueue :
    (side : Side) (w : World) → SameQueue w (with_header (remove_waiter side) w)
remove_waiter-SameQueue Side.left w = ground arith
remove_waiter-SameQueue Side.right w = ground arith

wake-SameQueue : (f : Futex) (w : World) → SameQueue w (futex_wake f w)
wake-SameQueue f w = ground arith

-- What a `wait` that returns does.
abbrev pub Waited : (World → Type 0) → Result (Unit {0}) IoError × World → Type 0
Waited P d = (d.0 ≡ ok tt) × P d.1

-- Either way the spinning ended.
abbrev pub Either : (World → Type 0) → Result World World → Type 0
Either P (ok w) = P w
Either P (err w) = P w

module _ (peer : Peer) (P : World → Type 0) (same : (w w' : World) → SameQueue w w' → P w → P w')
    (step : (w : World) → P w → P (interfere peer w)) where
  lock_contended_keeps :
      (fuel : ℕ) (side : Side) (w : World) → P w → IfSome P (lock_contended peer fuel side w)
  unfolding lock_contended
  lock_contended_keeps zero side w a = tt
  lock_contended_keeps (suc fuel) side w a =
      let w' : World = with_header (set_lock side 2) w in
      let here : P w' = same w w' (set_lock-SameQueue side 2 w) a in
      elim (Bool-cases ((half side w.header).lock == 0)) [
        | inl free ↦ rw free here
        | inr held ↦ rw held (lock_contended_keeps fuel side (interfere peer w') (step w' here))
      ]

  pub lock_keeps : (fuel : ℕ) (side : Side) (w : World) → P w → IfSome P (lock peer fuel side w)
  unfolding lock
  lock_keeps fuel side w a =
      let w' : World = interfere peer w in
      let here : P w' = step w a in
      elim (Bool-cases ((half side w'.header).lock == 0)) [
        | inl free ↦
            rw free (same w' (with_header (set_lock side 1) w') (set_lock-SameQueue side 1 w') here)
        | inr held ↦ rw held (lock_contended_keeps fuel side w' here)
      ]

  spin_keeps :
      (n : ℕ) (side : Side) (expected : ℕ) (w : World)
      → P w
      → Either P (spin peer n side expected w)
  unfolding spin
  spin_keeps zero side expected w a = a
  spin_keeps (suc n) side expected w a =
      let w' : World = interfere peer w in
      let here : P w' = step w a in
      elim (Bool-cases (load_offset side w'.header == expected)) [
        | inl equal ↦ rw equal (spin_keeps n side expected w' here)
        | inr differs ↦ rw differs here
      ]

  asleep_keeps : (fuel : ℕ) (side : Side) (w : World) → P w → IfSome P (asleep peer fuel side w)
  unfolding asleep
  asleep_keeps zero side w a = tt
  asleep_keeps (suc fuel) side w a =
      let here : P (interfere peer w) = step w a in
      elim (Bool-cases (ltb (wakes_of side w.wakes) (wakes_of side (peer w).wakes))) [
        | inl woken ↦ rw woken here
        | inr sleeps ↦ rw sleeps (asleep_keeps fuel side (interfere peer w) here)
      ]

  futex_wait_keeps :
      (fuel : ℕ) (side : Side) (expected : ℕ) (w : World)
      → P w
      → IfSome P (futex_wait peer fuel side expected w)
  unfolding futex_wait
  futex_wait_keeps fuel side expected w a =
      let w' : World = interfere peer w in
      let here : P w' = step w a in
      elim (Bool-cases (load_offset side w'.header == expected)) [
        | inl equal ↦ rw equal (asleep_keeps fuel side w' here)
        | inr differs ↦ rw differs here
      ]

  sleep_keeps :
      (fuel : ℕ) (side : Side) (expected : ℕ) (r : Result World World)
      → Either P r
      → IfSome (Waited P) (sleep peer fuel side expected r)
  unfolding sleep
  sleep_keeps fuel side expected (ok w) a = (refl, a)
  sleep_keeps fuel side expected (err w) a =
      let w₁ : World = with_header (add_waiter side) w in
      Ends->>= Unit P (Waited P) (futex_wait peer fuel side expected w₁) _
        (futex_wait_keeps fuel side expected w₁ (same w w₁ (add_waiter-SameQueue side w) a))
        (λ w₂ b.
          (refl, same w₂ (with_header (remove_waiter side) w₂) (remove_waiter-SameQueue side w₂) b))

  pub wait_keeps :
      (fuel n : ℕ) (side : Side) (expected : ℕ) (w : World)
      → P w
      → IfSome (Waited P) (wait peer fuel n side expected w)
  unfolding wait
  wait_keeps fuel n side expected w a =
      sleep_keeps fuel side expected (spin peer n side expected w) (spin_keeps n side expected w a)

  pub notify_keeps :
      (side : Side) (w : World) → P w → let (res, w') = notify peer side w in (res ≡ ok tt) × P w'
  unfolding notify
  notify_keeps side w a =
      let w' : World = interfere peer w in
      let woken : World = futex_wake (offset_of side) w' in
      let here : P w' = step w a in
      elim (Bool-cases (waiters side w'.header == 0)) [
        | inl nobody ↦ rw nobody (refl, here)
        | inr somebody ↦ rw somebody (refl, same w' woken (wake-SameQueue (offset_of side) w') here)
      ]

-- A free lock is taken at once.
pub lock_free :
    (peer : Peer) (fuel : ℕ) (side : Side) (w : World)
    → (half side (interfere peer w).header).lock ≡ 0
    → lock peer fuel side w ≡ some (with_header (set_lock side 1) (interfere peer w))
unfolding lock
lock_free peer fuel side w free = rw free
