-- ===== src/Lock/Runs.antt =====
-- `lock` and `unlock` of Process, as one process makes them, against the moves of a thread.
use memequeue.Prelude.{ℕ, zero, suc, ◌≡◌, refl, inl, inr, Bool-cases, ==_iff, ◌==◌, arith}
use memequeue.Io.{IfSome, Ends-map}
use memequeue.Control.{Side, half, set_lock}
use memequeue.Process.{
  World, Peer, with_header, interfere, unlock, futex_wake, lock_of, lock_contended, lock,
}
use memequeue.Lock.{
  Pc, out, swapping, waiting, inside, waking, Move, exchange, exchange_fails, swap, swap_fails,
  sleep, interrupted, release, release_contended,
}

abbrev word_of : Side → World → ℕ
word_of side w = (half side w.header).lock

abbrev with_word : Side → ℕ → World → World
with_word side word w = with_header (set_lock side word) w

-- Moves of one thread, with what the others do between them.
pub data LockRun (peer : Peer) (side : Side) : World → Pc → World → Pc → Type 0 where
  done : {w : World} {p : Pc} → LockRun peer side w p w p
  moves :
      {w w' : World} {word : ℕ} {p p₁ p' : Pc}
      → Move (word_of side w) p word p₁
      → LockRun peer side (with_word side word w) p₁ w' p'
      → LockRun peer side w p w' p'
  others :
      {w w' : World} {p p' : Pc}
      → LockRun peer side (interfere peer w) p w' p'
      → LockRun peer side w p w' p'
  wakes :
      {w w' : World} {p' : Pc}
      → LockRun peer side (futex_wake (lock_of side) w) out w' p'
      → LockRun peer side w waking w' p'

same_word : (side : Side) (w : World) → with_word side (word_of side w) w ≡ w
same_word Side.left w = refl
same_word Side.right w = refl

two : (side : Side) (w : World) → word_of side (with_word side 2 w) ≡ 2
two Side.left w = refl
two Side.right w = refl

module _ (peer : Peer) (side : Side) where
  -- A move that leaves the word as it is.
  stays :
      {w w' : World} {p p₁ p' : Pc}
      → Move (word_of side w) p (word_of side w) p₁
      → LockRun peer side w p₁ w' p'
      → LockRun peer side w p w' p'
  stays {w} {w'} {p} {p₁} {p'} mv run = moves mv (rw (same_word side w) run)

  -- `futex_wait` on a word that is 2 sleeps, the others run, and it returns.
  futex_wait-LockRun :
      (w : World) {w' : World} {p' : Pc}
      → word_of side w ≡ 2
      → LockRun peer side (interfere peer w) swapping w' p'
      → LockRun peer side w waiting w' p'
  futex_wait-LockRun w e run = stays (sleep e) (others (stays interrupted run))

  contended-LockRun :
      (fuel : ℕ) (w : World)
      → IfSome (λ w'. LockRun peer side w swapping w' inside) (lock_contended peer fuel side w)
  unfolding lock_contended
  contended-LockRun zero w = tt
  contended-LockRun (suc fuel) w = elim (Bool-cases (word_of side w == 0)) [
    | inl e ↦ rw e (moves (swap ((==_iff (word_of side w) 0).0 e)) done)
    | inr e ↦ rw e (
        let w₂ : World = with_word side 2 w in
        Ends-map Unit (λ w'. LockRun peer side (interfere peer w₂) swapping w' inside) _
          (lock_contended peer fuel side (interfere peer w₂))
          (contended-LockRun fuel (interfere peer w₂))
          (λ w' run.
            moves (swap_fails (ground (arith, e))) (futex_wait-LockRun w₂ (two side w) run)))
  ]

-- A `lock` of one process that returns is a run of a thread from outside to inside, with the others'
-- accesses in between.
pub lock-LockRun :
    (peer : Peer) (side : Side) (fuel : ℕ) (w : World)
    → IfSome (λ w'. LockRun peer side w out w' inside) (lock peer fuel side w)
unfolding lock
lock-LockRun peer side fuel w =
    let w₁ : World = interfere peer w in
    elim (Bool-cases (word_of side w₁ == 0)) [
      | inl e ↦ rw e (others (moves (exchange ((==_iff (word_of side w₁) 0).0 e)) done))
      | inr e ↦ rw e (
          Ends-map Unit (λ w'. LockRun peer side w₁ swapping w' inside) _
            (lock_contended peer fuel side w₁) (contended-LockRun peer side fuel w₁)
            (λ w' run. others (stays peer side (exchange_fails (ground (arith, e))) run)))
    ]

-- The drop of the guard is a run of a thread from inside to outside, with a `futex_wake` if the word was 2.
pub unlock-LockRun :
    (peer : Peer) (side : Side) (w : World) → LockRun peer side w inside (unlock side w) out
unfolding unlock
unlock-LockRun peer side w = elim (Bool-cases (word_of side w == 2)) [
  | inl e ↦ rw e (moves (release_contended ((==_iff (word_of side w) 2).0 e)) (wakes done))
  | inr e ↦ rw e (moves (release (ground (arith, e))) done)
]
