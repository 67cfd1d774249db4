-- ===== src/Lock/Safety.antt =====
-- What the lock of src/control/shmem_futex.rs promises: one holder at a time, and no sleeper forgotten.
use memequeue.Prelude.{ℕ, ◌≡◌, ◌≢◌, ◌↔◌, refl, inl, inr, Bool-cases, ==_iff, true, ◌==◌, arith}
use memequeue.Lock.{
  Pc, inside, asleep, swapping, waiting, waking, Threads, update, Move, swap, swap_fails,
  stay_awake, release_contended, Reach,
}
use memequeue.Lock.Inv.{contends, Inv, Move-Inv, Reach-Inv}

-- In every state that threads reach from a free lock, of two different threads at most one is inside.
pub mutual_exclusion :
    {s : Threads} → Reach s → (i j : ℕ) → i ≢ j → s.pc i ≡ inside → s.pc j ≢ inside
mutual_exclusion r i j ne p q = ne ((Reach-Inv r).unique i j p q)

-- In every state that threads reach from a free lock, the lock word is not 0 exactly when some thread is
-- inside.
pub locked_iff : {s : Threads} → Reach s → (s.word ≢ 0) ↔ ((i : ℕ) × (s.pc i ≡ inside))
locked_iff r = ((Reach-Inv r).held, λ (i, q). (Reach-Inv r).locked i q)

-- Awake threads alone can bring it about that a `futex_wake` wakes thread `j`.
pub data CanWake (j : ℕ) : Threads → Type 0 where
  wakes : {s : Threads} (i : ℕ) → s.pc i ≡ waking → s.pc j ≡ asleep → CanWake j s
  moves :
      {s : Threads} (i : ℕ) {word : ℕ} {p p' : Pc}
      → s.pc i ≡ p
      → p ≢ asleep
      → Move s.word p word p'
      → CanWake j (record { word = word; pc = update s.pc i p' })
      → CanWake j s

module _ (j : ℕ) where
  -- The holder of a contended lock wakes `j` when it is done.
  contended : {s : Threads} → Inv s.word s.pc → s.pc j ≡ asleep → s.word ≡ 2 → CanWake j s
  contended inv e w =
      let (k, q) = inv.held (ground (arith, w)) in
      moves k q (ground arith) (release_contended w) (wakes k (ground arith) (ground (arith, e, q)))

  -- A thread that swaps makes the lock contended.
  swapper :
      {s : Threads} → Inv s.word s.pc → s.pc j ≡ asleep → (k : ℕ) → s.pc k ≡ swapping → CanWake j s
  swapper {s} inv e k q = elim (Bool-cases (s.word == 0)) [
    | inl w ↦
        let free : Move s.word swapping 2 inside = swap ((==_iff s.word 0).0 w) in
        moves k q (ground arith) free
          (contended (Move-Inv inv k free q) (ground (arith, e, q)) refl)
    | inr w ↦
        let taken : Move s.word swapping 2 waiting = swap_fails (ground (arith, w)) in
        moves k q (ground arith) taken
          (contended (Move-Inv inv k taken q) (ground (arith, e, q)) refl)
  ]

  waiter :
      {s : Threads} → Inv s.word s.pc → s.pc j ≡ asleep → (k : ℕ) → s.pc k ≡ waiting → CanWake j s
  waiter {s} inv e k q = elim (Bool-cases (s.word == 2)) [
    | inl w ↦ contended inv e (ground (arith, w))
    | inr w ↦
        let awake : Move s.word waiting s.word swapping = stay_awake (ground (arith, w)) in
        moves k q (ground arith) awake
          (swapper (Move-Inv inv k awake q) (ground (arith, e, q)) k (ground arith))
  ]

  contender :
      {s : Threads}
      → Inv s.word s.pc
      → s.pc j ≡ asleep
      → (k : ℕ) (p : Pc) → s.pc k ≡ p
      → contends p ≡ true
      → CanWake j s
  contender inv e k swapping q c = swapper inv e k q
  contender inv e k waiting q c = waiter inv e k q
  contender inv e k waking q c = wakes k q e
  contender inv e k p q c = absurd (ground (arith, c))

-- In every state that threads reach from a free lock, if thread `j` sleeps in `lock`, then threads that
-- are awake can get to where a `futex_wake` wakes it, with no spurious wake-up on the way.
pub sleeper-CanWake : {s : Threads} → Reach s → (j : ℕ) → s.pc j ≡ asleep → CanWake j s
sleeper-CanWake {s} r j e =
    let inv = Reach-Inv r in
    elim (inv.cared j e) [
      | inl w ↦ contended j inv e w
      | inr (k, c) ↦ contender j inv e k (s.pc k) refl c
    ]
