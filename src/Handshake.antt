-- ===== src/Handshake.antt =====
-- src/handshake.rs and what its two implementations share: the sizes of the queue and of its file.
pub mod NamedFile
pub mod UdsMemfd
pub mod Tests
use memequeue.Prelude.{
  ℕ, Bool, ◌+◌, ◌-◌, ◌*◌, ◌%◌, ◌/◌, ◌^◌, ◌≤◌, ◌<◌, ◌≡◌, ◌==◌, refl, ap, arith, ltb, if◌then◌else◌,
  add64, Bool-cases, ==_iff, true, false, inl, inr, sym, ◌∙◌,
}
use native.Mathlib.Nat.{mod-lt, div-add-mod, mul-mod_right, add-mod_right}
use memequeue.Os.{Outcome, Act, gives, panic, value}

-- `HandshakeResult`, as operations on `self` beside the system's state; `drop` is what its end does.
pub record HandshakeResult (H S : Type 0) : Type 0 where
  pub shmem_fd : H → ℕ
  pub is_owner : H → Bool
  pub queue_size : H → ℕ
  pub mark_ready : Act (H × S) (Unit {0})
  pub drop : H → S → S

-- `ExchangeFd`
pub record ExchangeFd (H S : Type 0) : Type 0 where
  pub send_fd : ℕ → Act (H × S) (Unit {0})
  pub recv_fd : Act (H × S) ℕ

-- A call that leaves `self` as it is.
abbrev pub with_self : {H S A : Type 0} → H → Outcome A × S → Outcome A × (H × S)
with_self r (o, s) = (o, (r, s))

-- `usize::next_multiple_of`, with the wrap-around of a release build
unfoldable pub next_multiple_of : ℕ → ℕ → ℕ
next_multiple_of n k = if n % k == 0 then n else add64 n (k - n % k)

-- The queue's size from the length of a file that another process has made.
unfoldable pub size_from_len : {S : Type 0} → ℕ → ℕ → Act S ℕ
size_from_len page_size len =
    if ltb len page_size
    then panic
    else if (len - page_size) % page_size == 0
    then gives (len - page_size)
    else panic

-- What a handshake with a named file or a socket needs to know of the size: a multiple of the page size,
-- the next from what was asked for.
pub next_multiple_of_lem :
    (n k : ℕ)
    → 0 < k
    → n + k < 2 ^ 64
    → (next_multiple_of n k % k ≡ 0) × (n ≤ next_multiple_of n k) × (next_multiple_of n k < n + k)
unfolding next_multiple_of
next_multiple_of_lem n k positive small = elim (Bool-cases (n % k == 0)) [
  | inl e ↦ rw e ((==_iff _ _).0 e, omega arith, omega arith)
  | inr ne ↦
      let rest : n % k < k = mod-lt n positive in
      let whole : k * (n / k) + n % k ≡ n = div-add-mod n k in
      let sum : add64 n (k - n % k) ≡ k * (n / k) + k = omega (arith, rest, whole) in
      rw (ne, sum)
        (
          add-mod_right (k * (n / k)) k ∙ mul-mod_right k (n / k),
          omega (arith, rest, whole),
          ground (arith, rest, whole, ne),
        )
]

-- A file of a page and whole pages behind it has a size.
pub size_from_len_lem :
    {S : Type 0} (page_size size : ℕ) (s : S)
    → size % page_size ≡ 0
    → size_from_len page_size (page_size + size) s ≡ (value size, s)
unfolding size_from_len
size_from_len_lem page_size size s whole =
    let size_back : page_size + size - page_size ≡ size = omega arith in
    let enough : ltb (page_size + size) page_size ≡ false = ground arith in
    rw (enough, size_back, whole)
