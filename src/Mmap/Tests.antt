-- ===== src/Mmap/Tests.antt =====
-- `from_fd` over a small address space, and the theorem there.
use memequeue.Prelude.{
  ℕ, ◌+◌, ◌-◌, ◌^◌, ◌≡◌, true, false, ltb, inl, inr, Bool-cases, refl, arith, if◌then◌else◌,
}
use memequeue.Io.{IoError, Result, ok, err}
use memequeue.Os.{Does, CallDoes}
use memequeue.Control.{Header}
use memequeue.Mmap.{Mappings, from_fd}
use memequeue.Mmap.Regions.{
  Backing, nothing, anonymous, of_file, within, Maps, New, IsAddressSpace, Double, Same,
  from_fd-Does,
}

-- Nothing from `next` on is mapped; `pages` are the first pages of the files.
pub record Space : Type 0 where
  pub next : ℕ
  pub used : ℕ → Backing
  pub pages : ℕ → Header

abbrev pub mapped : Space → ℕ → Backing
mapped s x = if ltb x s.next then s.used x else nothing

abbrev put : (ℕ → Backing) → ℕ → ℕ → ℕ → Space → Space
put what start n next s = record {
  next = next;
  pages = s.pages;
  used = λ x. if within start n x then what (x - start) else mapped s x;
}

-- A new mapping goes to `next`.
abbrev pub grow : (ℕ → Backing) → ℕ → Space → Result ℕ IoError × Space
grow what n s =
    if ltb (s.next + n) (2 ^ 47)
    then (ok s.next, put what s.next n (s.next + n) s)
    else (err (IoError.os 12), s)

abbrev furthest : ℕ → ℕ → ℕ
furthest a b = if ltb a b then b else a

abbrev pub space : Mappings Space
space = record {
  map_anonymous = grow (λ _. anonymous);
  map_fixed = λ start n fd offset s.
      (ok start, put (λ k. of_file fd (offset + k)) start n (furthest s.next (start + n)) s);
  map_file = λ n fd offset. grow (λ k. of_file fd (offset + k)) n;
  munmap = λ start n s. record s { used = λ x. if within start n x then nothing else s.used x };
}

-- What is put below the new end is mapped, and all that was below the old one still is.
put-Maps :
    (what : ℕ → Backing) (start n next : ℕ) (s : Space)
    → ((x : ℕ) → within start n x ≡ true → ltb x next ≡ true)
    → ((x : ℕ) → ltb x next ≡ false → ltb x s.next ≡ false)
    → Maps mapped what start n s (put what start n next s)
put-Maps what start n next s inside beyond x = elim (Bool-cases (within start n x)) [
  | inl e ↦ rw (e, inside x e) refl
  | inr e ↦ elim (Bool-cases (ltb x next)) [
    | inl below ↦ rw (e, below) refl
    | inr above ↦ rw (e, above, beyond x above) refl
  ]
]

grow_free : (n x : ℕ) (s : Space) → within s.next n x ≡ true → mapped s x ≡ nothing
grow_free n x s e = let above : ltb x s.next ≡ false = ground (arith, e) in rw above refl

grow-New :
    (what : ℕ → Backing) (n : ℕ) (s : Space)
    → CallDoes (New mapped what n s) (Same mapped s) (grow what n s)
grow-New what n s = elim (Bool-cases (ltb (s.next + n) (2 ^ 47))) [
  | inl e ↦ rw e (record {
    fits = ground (arith, e);
    was_free = λ x. grow_free n x s;
    maps =
        put-Maps what s.next n (s.next + n) s (λ x i. ground (arith, i)) (λ x a. ground (arith, a));
  })
  | inr e ↦ rw e (λ x. refl)
]

unmap_lem :
    (start n x : ℕ) (s : Space)
    → mapped (record s { used = λ x. if within start n x then nothing else s.used x }) x
      ≡ (if within start n x then nothing else mapped s x)
unmap_lem start n x s = elim (Bool-cases (within start n x)) [
  | inl e ↦ elim (Bool-cases (ltb x s.next)) [ inl b ↦ rw (e, b) refl | inr b ↦ rw (e, b) refl ]
  | inr e ↦ rw e refl
]

pub space-IsAddressSpace : IsAddressSpace mapped space
space-IsAddressSpace = record {
  anonymous = grow-New (λ _. anonymous);
  fixed = λ start n fd offset s. (
    refl,
    put-Maps (λ k. of_file fd (offset + k)) start n (furthest s.next (start + n)) s
        (λ x i. ground (arith, i)) (λ x a. ground (arith, a)),
  );
  file = λ n fd offset. grow-New (λ k. of_file fd (offset + k)) n;
  unmap = λ start n s x. unmap_lem start n x s;
}

-- The header page of a queue with one empty message.
abbrev pub old_page : Header
old_page = record {
  left = record { offset = 0; lock = 0; cached_other_offset = 0 };
  right = record { offset = 8; lock = 0; cached_other_offset = 0 };
  left_waiters = 0;
  right_waiters = 0;
}

abbrev pub empty_space : Space
empty_space = record { next = 4096; used = λ x. nothing; pages = λ fd. old_page }

from_fd-Does_example :
    Does
      (Double mapped 4096 3 8192 empty_space)
      (Same mapped empty_space)
      (from_fd space 4096 3 8192 empty_space)
from_fd-Does_example =
    from_fd-Does mapped space space-IsAddressSpace 4096 3 8192 (omega arith) empty_space refl
