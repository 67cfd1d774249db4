-- ===== src/Lock/Inv.antt =====
-- The lock's invariant, and that every step keeps it.
use memequeue.Prelude.{ℕ, ◌≡◌, ◌≢◌, refl, ◌⊎◌, inl, inr, Bool, true, false, arith}
use memequeue.Lock.{
  Pc, out, swapping, waiting, asleep, inside, waking, Threads, update, Move, exchange,
  exchange_fails, swap, swap_fails, sleep, stay_awake, interrupted, release, release_contended,
  Step, pick, wake, wake_nobody, unlocked, Reach, here, later,
}

-- In `lock` or at the end of `drop`, and awake.
abbrev pub contends : Pc → Bool
contends swapping = true
contends waiting = true
contends waking = true
contends _ = false

-- Somebody sees to those who sleep: the holder, who finds the word contended, or an awake thread.
abbrev pub Cared : ℕ → (ℕ → Pc) → Type 0
Cared word pc = (word ≡ 2) ⊎ ((k : ℕ) × (contends (pc k) ≡ true))

pub record Inv (word : ℕ) (pc : ℕ → Pc) : Type 0 where
  pub unique : (i j : ℕ) → pc i ≡ inside → pc j ≡ inside → i ≡ j
  pub locked : (i : ℕ) → pc i ≡ inside → word ≢ 0
  pub held : word ≢ 0 → (i : ℕ) × (pc i ≡ inside)
  pub cared : (i : ℕ) → pc i ≡ asleep → Cared word pc

-- The premise of a move.
abbrev Guard : {word word' : ℕ} {p p' : Pc} → Move word p word' p' → Type 0
Guard {word} (exchange _) = word ≡ 0
Guard {word} (exchange_fails _) = word ≢ 0
Guard {word} (swap _) = word ≡ 0
Guard {word} (swap_fails _) = word ≢ 0
Guard {word} (sleep _) = word ≡ 2
Guard {word} (stay_awake _) = word ≢ 2
Guard interrupted = Unit
Guard {word} (release _) = word ≢ 2
Guard {word} (release_contended _) = word ≡ 2

guard : {word word' : ℕ} {p p' : Pc} (mv : Move word p word' p') → Guard mv
guard (exchange g) = g
guard (exchange_fails g) = g
guard (swap g) = g
guard (swap_fails g) = g
guard (sleep g) = g
guard (stay_awake g) = g
guard interrupted = tt
guard (release g) = g
guard (release_contended g) = g

module _ {word : ℕ} {pc : ℕ → Pc} (inv : Inv word pc) (i : ℕ) where
  Move-unique :
      {word' : ℕ} {p p' : Pc}
      → Move word p word' p'
      → pc i ≡ p
      → (a b : ℕ) → update pc i p' a ≡ inside
      → update pc i p' b ≡ inside
      → a ≡ b
  Move-unique (exchange g) e a b qa qb =
      ground (arith, g, inv.unique a b, inv.locked a, inv.locked b)
  Move-unique mv e a b qa qb = ground (arith, guard mv, inv.unique a b, inv.locked a, inv.locked b)

  Move-locked :
      {word' : ℕ} {p p' : Pc}
      → Move word p word' p'
      → pc i ≡ p
      → (a : ℕ) → update pc i p' a ≡ inside
      → word' ≢ 0
  Move-locked (exchange g) e a q = ground (arith, g, inv.locked a)
  Move-locked mv e a q = ground (arith, guard mv, inv.locked a, inv.unique a i)

  -- Who is inside and does not move, stays.
  stays :
      (p' : Pc) → pc i ≢ inside → (a : ℕ) × (pc a ≡ inside) → (a : ℕ) × (update pc i p' a ≡ inside)
  stays p' e (a, q) = (a, ground (arith, q, e))

  comes : (a : ℕ) × (update pc i inside a ≡ inside)
  comes = (i, ground (arith))

  Move-held :
      {word' : ℕ} {p p' : Pc}
      → Move word p word' p'
      → pc i ≡ p
      → word' ≢ 0
      → (a : ℕ) × (update pc i p' a ≡ inside)
  Move-held (exchange g) e ne = comes
  Move-held (swap g) e ne = comes
  Move-held (exchange_fails g) e ne = stays _ (ground (arith, e)) (inv.held g)
  Move-held (swap_fails g) e ne = stays _ (ground (arith, e)) (inv.held g)
  Move-held (sleep g) e ne = stays _ (ground (arith, e)) (inv.held ne)
  Move-held (stay_awake g) e ne = stays _ (ground (arith, e)) (inv.held ne)
  Move-held interrupted e ne = stays _ (ground (arith, e)) (inv.held ne)
  Move-held (release g) e ne = absurd (ne refl)
  Move-held (release_contended g) e ne = absurd (ne refl)

  -- Who moves now contends.
  mover-Cared : {word' : ℕ} (p' : Pc) → contends p' ≡ true → Cared word' (update pc i p')
  mover-Cared p' e = inr (i, ground (arith, e))

  still-Cared :
      {word' : ℕ} (p' : Pc)
      → contends (pc i) ≡ false
      → (word ≡ 2 → word' ≡ 2)
      → Cared word pc
      → Cared word' (update pc i p')
  still-Cared p' e f (inl w) = inl (f w)
  still-Cared p' e f (inr (k, c)) = inr (k, ground (arith, e, c))

  Move-Cared :
      {word' : ℕ} {p p' : Pc}
      → Move word p word' p'
      → pc i ≡ p
      → (a : ℕ) → update pc i p' a ≡ asleep
      → Cared word' (update pc i p')
  Move-Cared (exchange_fails _) e a q = mover-Cared _ refl
  Move-Cared (swap _) e a q = inl refl
  Move-Cared (swap_fails _) e a q = inl refl
  Move-Cared (sleep g) e a q = inl g
  Move-Cared (stay_awake _) e a q = mover-Cared _ refl
  Move-Cared interrupted e a q = mover-Cared _ refl
  Move-Cared (release_contended _) e a q = mover-Cared _ refl
  Move-Cared (exchange g) e a q =
      still-Cared _ (ground (arith, e)) (λ w. ground (arith, g, w))
        (inv.cared a (ground (arith, e, q)))
  Move-Cared (release g) e a q =
      still-Cared _ (ground (arith, e)) (λ w. absurd (g w)) (inv.cared a (ground (arith, e, q)))

  pub Move-Inv :
      {word' : ℕ} {p p' : Pc} → Move word p word' p' → pc i ≡ p → Inv word' (update pc i p')
  Move-Inv mv e = record {
    unique = Move-unique mv e;
    locked = Move-locked mv e;
    held = Move-held mv e;
    cared = Move-Cared mv e;
  }

  -- `futex_wake` of thread `i`, which wakes `j`,
  wake-Inv :
      (j : ℕ) → pc i ≡ waking → pc j ≡ asleep → Inv word (update (update pc i out) j swapping)
  wake-Inv j e f = record {
    unique = λ a b p q. ground (arith, e, f, inv.unique a b);
    locked = λ a p. ground (arith, e, f, inv.locked a);
    held = λ ne. let (a, p) = inv.held ne in (a, ground (arith, e, f, p));
    cared = λ a p. inr (j, ground (arith));
  }

  -- and one that finds nobody.
  wake_nobody-Inv : pc i ≡ waking → ((j : ℕ) → pc j ≢ asleep) → Inv word (update pc i out)
  wake_nobody-Inv e none = record {
    unique = λ a b p q. ground (arith, e, inv.unique a b);
    locked = λ a p. ground (arith, e, inv.locked a);
    held = λ ne. stays out (ground (arith, e)) (inv.held ne);
    cared = λ a p. absurd (none a (ground (arith, e, p)));
  }

Step-Inv : {s t : Threads} → Inv s.word s.pc → Step s t → Inv t.word t.pc
Step-Inv inv (pick i mv) = Move-Inv inv i mv refl
Step-Inv inv (wake i j e f) = wake-Inv inv i j e f
Step-Inv inv (wake_nobody i e none) = wake_nobody-Inv inv i e none

unlocked-Inv : Inv unlocked.word unlocked.pc
unlocked-Inv = record {
  unique = λ a b p q. ground (arith, p);
  locked = λ a p. ground (arith, p);
  held = λ ne. absurd (ne refl);
  cared = λ a p. ground (arith, p);
}

pub Reach-Inv : {s : Threads} → Reach s → Inv s.word s.pc
Reach-Inv here = unlocked-Inv
Reach-Inv (later r st) = Step-Inv (Reach-Inv r) st
