-- ===== src/Lock.antt =====
-- The lock of src/control/shmem_futex.rs among any number of threads of any processes: `lock` and the
-- `drop` of its guard, an access of the lock word or a futex call at a time.
pub mod Inv
pub mod Safety
pub mod Runs
pub mod Tests
use memequeue.Prelude.{ℕ, ◌≡◌, ◌≢◌, Bool, true, false, ◌==◌, if◌then◌else◌}

-- Where a thread stands.
pub data Pc : Type 0 where
  out : Pc  -- not in `lock`, and without it
  swapping : Pc  -- before `swap(2)`
  waiting : Pc  -- before `futex_wait(futex, 2)`
  asleep : Pc  -- in the kernel
  inside : Pc  -- between `lock` and the drop of its guard
  waking : Pc  -- before `futex_wake(futex, 1)`

-- The lock word, and the threads by number; all but a few stay `out` for good.
pub record Threads : Type 0 where
  pub word : ℕ
  pub pc : ℕ → Pc

abbrev pub update : {A : Type 0} → (ℕ → A) → ℕ → A → ℕ → A
update f i a j = if i == j then a else f j

-- A move of one thread: the word and its place, before and behind.
pub data Move (word : ℕ) : Pc → ℕ → Pc → Type 0 where
  exchange : word ≡ 0 → Move word out 1 inside  -- `compare_exchange(0, 1)`
  exchange_fails : word ≢ 0 → Move word out word swapping
  swap : word ≡ 0 → Move word swapping 2 inside
  swap_fails : word ≢ 0 → Move word swapping 2 waiting
  sleep : word ≡ 2 → Move word waiting word asleep
  stay_awake : word ≢ 2 → Move word waiting word swapping  -- `EAGAIN`
  interrupted : Move word asleep word swapping  -- `futex_wait` may return at any time
  release : word ≢ 2 → Move word inside 0 out
  release_contended : word ≡ 2 → Move word inside 0 waking

pub data Step (s : Threads) : Threads → Type 0 where
  pick :
      (i : ℕ) {word : ℕ} {p : Pc}
      → Move s.word (s.pc i) word p
      → Step s (record { word = word; pc = update s.pc i p })
  -- `futex_wake` wakes one thread that sleeps,
  wake :
      (i j : ℕ)
      → s.pc i ≡ waking
      → s.pc j ≡ asleep
      → Step s (record { word = s.word; pc = update (update s.pc i out) j swapping })
  -- if there is one.
  wake_nobody :
      (i : ℕ)
      → s.pc i ≡ waking
      → ((j : ℕ) → s.pc j ≢ asleep)
      → Step s (record { word = s.word; pc = update s.pc i out })

abbrev pub unlocked : Threads
unlocked = record { word = 0; pc = λ _. out }

pub data Reach : Threads → Type 0 where
  here : Reach unlocked
  later : {s t : Threads} → Reach s → Step s t → Reach t
