-- ===== src/Wakeup/Inv.antt =====
-- No wake-up of the sender is lost: the invariant and what follows.
use memequeue.Prelude.{ℕ, ◌≡◌, ◌≢◌, refl, ap, ◌∙◌, add32, sub32, arith}
use memequeue.Lock.{update}
use memequeue.Wakeup.{
  Waiter, counted, asleep, leaving, Notifier, idle, committed, waking, LeftSide, Waits, fix_offsets,
  enter, sees, count, sleep, stay_awake, interrupted, leave, Notifies, commit_offset, nobody_waits,
  somebody_waits, Step, waits, notifies, wake, wake_nobody, Reach, here, later,
}

-- What the sender adds to the count.
abbrev pub share : Waiter → ℕ
share (counted _) = 1
share (asleep _) = 1
share leaving = 1
share _ = 0

record Inv (s : LeftSide) : Type 0 where
  pub exact : s.waiters ≡ share s.waiter
  pub notified : (e : ℕ) → s.waiter ≡ asleep e → s.offset ≢ e → (i : ℕ) × (s.notifiers i ≢ idle)

waits-exact : {o n o' n' : ℕ} {p p' : Waiter} → Waits o n p o' n' p' → n ≡ share p → n' ≡ share p'
waits-exact (fix_offsets o) h = h
waits-exact (enter e) h = h
waits-exact (sees ne) h = h
waits-exact count h = ap (λ n. add32 n 1) h
waits-exact (sleep q) h = h
waits-exact (stay_awake ne) h = h
waits-exact interrupted h = h
waits-exact leave h = ap (λ n. sub32 n 1) h

module _ {s : LeftSide} (inv : Inv s) where
  waits-Inv :
      {o n : ℕ} {p : Waiter}
      → Waits s.offset s.waiters s.waiter o n p
      → Inv (record { offset = o; waiters = n; waiter = p; notifiers = s.notifiers })
  waits-Inv mv = record { exact = waits-exact mv inv.exact; notified = asleep-notified mv refl }
    where
      asleep-notified :
          {o n : ℕ} {p p' : Waiter}
          → Waits s.offset s.waiters p o n p'
          → s.waiter ≡ p
          → (e : ℕ) → p' ≡ asleep e
          → o ≢ e
          → (i : ℕ) × (s.notifiers i ≢ idle)
      asleep-notified (sleep q) h e f ne = ground (arith, q, f, ne)
      asleep-notified mv h e f ne = ground (arith, f)

  notifies-Inv :
      (i : ℕ) {o : ℕ} {p : Notifier}
      → Notifies s.offset s.waiters (s.notifiers i) o p
      → Inv (record s { offset = o; notifiers = update s.notifiers i p })
  notifies-Inv i mv = record { exact = inv.exact; notified = λ e f ne. still mv refl e f ne }
    where
      still :
          {o : ℕ} {p p' : Notifier}
          → Notifies s.offset s.waiters p o p'
          → s.notifiers i ≡ p
          → (e : ℕ) → s.waiter ≡ asleep e
          → o ≢ e
          → (k : ℕ) × (update s.notifiers i p' k ≢ idle)
      still (commit_offset o) h e f ne = (i, ground arith)
      still (somebody_waits g) h e f ne = (i, ground arith)
      still (nobody_waits g) h e f ne = absurd (ground (arith, g, inv.exact, f))

  wake-Inv :
      (i : ℕ) {e : ℕ}
      → s.waiter ≡ asleep e
      → Inv (record s { waiter = leaving; notifiers = update s.notifiers i idle })
  wake-Inv i f = record { exact = inv.exact ∙ ap share f; notified = λ e q ne. ground (arith, q) }

  wake_nobody-Inv :
      (i : ℕ)
      → ((e : ℕ) → s.waiter ≢ asleep e)
      → Inv (record s { notifiers = update s.notifiers i idle })
  wake_nobody-Inv i none = record { exact = inv.exact; notified = λ e f ne. absurd (none e f) }

Step-Inv : {s t : LeftSide} → Inv s → Step s t → Inv t
Step-Inv inv (waits mv) = waits-Inv inv mv
Step-Inv inv (notifies i mv) = notifies-Inv inv i mv
Step-Inv inv (wake i _ f) = wake-Inv inv i f
Step-Inv inv (wake_nobody i _ none) = wake_nobody-Inv inv i none

Reach-Inv : {s : LeftSide} → Reach s → Inv s
Reach-Inv (here o) = record { exact = refl; notified = λ e f ne. ground (arith, f) }
Reach-Inv (later r st) = Step-Inv (Reach-Inv r) st

-- A receiver will find the sender: it is about to wake it, or to look whether someone waits.
pub data Notified (s : LeftSide) : Type 0 where
  will_wake : (i : ℕ) → s.notifiers i ≡ waking → Notified s
  will_look : (i : ℕ) → s.notifiers i ≡ committed → s.waiters ≢ 0 → Notified s

busy-Notified :
    {s : LeftSide}
    → Inv s
    → {e : ℕ} → s.waiter ≡ asleep e
    → (i : ℕ) (p : Notifier) → s.notifiers i ≡ p
    → p ≢ idle
    → Notified s
busy-Notified inv f i idle q b = absurd (b refl)
busy-Notified inv f i committed q b = will_look i q (ground (arith, inv.exact, f))
busy-Notified inv f i waking q b = will_wake i q

-- In every state that a sender and receivers reach from one where nobody waits or notifies, if the sender
-- sleeps on the left offset and that has another value than it expects, then a receiver is about to wake
-- it or to look at a count of waiters that is not 0.
pub sleeper-Notified :
    {s : LeftSide} → Reach s → (e : ℕ) → s.waiter ≡ asleep e → s.offset ≢ e → Notified s
sleeper-Notified {s} r e f ne =
    let inv = Reach-Inv r in
    let (i, b) = inv.notified e f ne in busy-Notified inv f i (s.notifiers i) refl b

-- In every state that a sender and receivers reach from one where nobody waits or notifies, the count of
-- waiters is 1 if the sender stands between the two changes that it makes to it, and else 0.
pub waiters_exact : {s : LeftSide} → Reach s → s.waiters ≡ share s.waiter
waiters_exact r = (Reach-Inv r).exact
